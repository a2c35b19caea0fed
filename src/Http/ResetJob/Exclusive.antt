-- ===== src/Http/ResetJob/Exclusive.antt =====
-- internal/httpapi/quota_resets.go: `quotaResetKeys` lets one operation at a time at a key.
use sub2api5hlimit.Base.{
  ℕ, ◌+◌, ◌≤◌, ◌≡◌, refl, inl, inr, Bool, true, false, ◌==◌, if◌then◌else◌, Option, none, some,
  List, [], ◌∷◌, get_elem?, count_where, count_where-set, Bool-cases, Option-cases, arith,
}
use sub2api5hlimit.Store.Model.{QuotaResetJobItem, ItemStatus, Text, Db}
use sub2api5hlimit.Store.Tx.{Result, ok, err}
use sub2api5hlimit.Store.QuotaReset.Items.{mark_quota_reset_item_running, complete_quota_reset_item}
use sub2api5hlimit.Http.ResetItem.{
  reset_terminal_state, validate_quota_reset_item, holds, begin_quota_reset, end_quota_reset,
}
use sub2api5hlimit.Http.ResetJob.{
  Worker, idle, gone, received, marked, resetting, ending, World, Answer, answers, fails, returns,
  Event, work, begin_single, end_single, other_tables, place, give_up, receive, stored, start_reset,
  reset_key, validated, reset_returned, work_on, single_begun, react, react_all,
}

abbrev resets : ℕ → Worker → Bool
resets key (resetting i k) = k == key
resets key _ = false

abbrev count_of : ℕ → List ℕ → ℕ
count_of key = count_where (λ (k : ℕ). k == key)

-- At each key one operation at most runs, a worker's or a single one, and the key is in
-- `quotaResetKeys` exactly while it runs.
unfoldable pub IsExclusive : World → Type 0
IsExclusive w =
    (key : ℕ)
    → (count_of key w.busy ≤ 1)
      × (count_of key w.busy ≡ count_where (resets key) w.workers + count_of key w.singles)

holds-none : (key : ℕ) (ks : List ℕ) → holds key ks ≡ false → count_of key ks ≡ 0
unfolding holds
holds-none key [] h = refl
holds-none key (k ∷ ks) h = ground (arith, holds-none key ks)

holds-some : (key : ℕ) (ks : List ℕ) → holds key ks ≡ true → 1 ≤ count_of key ks
unfolding holds
holds-some key [] h = absurd (cc)
holds-some key (k ∷ ks) h = ground (arith, holds-some key ks)

count-end_quota_reset :
    (key k : ℕ) (ks : List ℕ)
    → count_of key (end_quota_reset k ks) ≡ (if k == key then 0 else count_of key ks)
unfolding end_quota_reset
count-end_quota_reset key k [] = ground arith
count-end_quota_reset key k (x ∷ ks) = ground (arith, count-end_quota_reset key k ks)

-- A worker that neither held a key nor takes one.
place-IsExclusive :
    (n : ℕ) (s v : Worker) (w : World)
    → ((key : ℕ) → resets key s ≡ false)
    → ((key : ℕ) → resets key v ≡ false)
    → get_elem? w.workers n ≡ some s
    → IsExclusive w
    → IsExclusive (place n v w)
unfolding IsExclusive
place-IsExclusive n s v w hs hv g h key =
    ground (arith, h key, hs key, hv key, count_where-set (resets key) w.workers n s v g)

start_reset-IsExclusive :
    (n : ℕ) (i : QuotaResetJobItem) (key : ℕ) (w : World)
    → get_elem? w.workers n ≡ some (marked i)
    → IsExclusive w
    → IsExclusive (start_reset n i key w (begin_quota_reset key w.busy))
unfolding begin_quota_reset IsExclusive
start_reset-IsExclusive n i key w g h = elim (Bool-cases (holds key w.busy)) [
  | inl e ↦ rw e (place-IsExclusive n (marked i) _ w (λ k. refl) (λ k. refl) g h)
  | inr e ↦ rw e (λ k. ground (
    arith,
    h k,
    holds-none key w.busy e,
    count_where-set (resets k) w.workers n (marked i) (resetting i key) g,
  ))
]

reset_returned-IsExclusive :
    (n : ℕ) (i : QuotaResetJobItem) (key : ℕ) (w : World) (o : ItemStatus × Text)
    → get_elem? w.workers n ≡ some (resetting i key)
    → IsExclusive w
    → IsExclusive (reset_returned n i key w o)
unfolding IsExclusive
reset_returned-IsExclusive n i key w o g h k = ground (
  arith,
  h k,
  count-end_quota_reset k key w.busy,
  count_where-set (resets k) w.workers n (resetting i key) (ending i o.0 o.1) g,
)

give_up-IsExclusive :
    (n : ℕ) (s : Worker) (w : World)
    → ((key : ℕ) → resets key s ≡ false)
    → get_elem? w.workers n ≡ some s
    → IsExclusive w
    → IsExclusive (give_up n w)
unfolding IsExclusive
give_up-IsExclusive n s w hs g h key =
    ground (arith, h key, hs key, count_where-set (resets key) w.workers n s idle g)

same_parts :
    (w w' : World)
    → w'.busy ≡ w.busy
    → w'.workers ≡ w.workers
    → w'.singles ≡ w.singles
    → IsExclusive w
    → IsExclusive w'
unfolding IsExclusive
same_parts w w' a b c h key = rw (a, b, c) (h key)

receive-IsExclusive :
    (n : ℕ) (items : List QuotaResetJobItem) (w : World)
    → get_elem? w.workers n ≡ some idle
    → IsExclusive w
    → IsExclusive (receive n items w)
unfolding IsExclusive
receive-IsExclusive n [] w g h = place-IsExclusive n idle gone w (λ k. refl) (λ k. refl) g h
receive-IsExclusive n (i ∷ rest) w g h = elim (Bool-cases w.fatal) [
  | inl e ↦ rw e (same_parts w (record w { queue = rest }) refl refl refl h)
  | inr e ↦ rw e (
      place-IsExclusive n idle (received i) (record w { queue = rest }) (λ k. refl) (λ k. refl) g
        (same_parts w (record w { queue = rest }) refl refl refl h))
]

stored-IsExclusive :
    (n : ℕ) (s v : Worker) (w : World) (o : Db × Result (Unit {0}))
    → ((key : ℕ) → resets key s ≡ false)
    → ((key : ℕ) → resets key v ≡ false)
    → get_elem? w.workers n ≡ some s
    → IsExclusive w
    → IsExclusive (stored n v w o)
unfolding IsExclusive
stored-IsExclusive n s v w (db, ok _) hs hv g h =
    place-IsExclusive n s v (record w { db = db }) hs hv g h
stored-IsExclusive n s v w (db, err _) hs hv g h = give_up-IsExclusive n s w hs g h

validated-IsExclusive :
    (n : ℕ) (i : QuotaResetJobItem) (w : World) (o : Option (ItemStatus × Text))
    → get_elem? w.workers n ≡ some (marked i)
    → IsExclusive w
    → IsExclusive (validated n i w o)
validated-IsExclusive n i w none g h = key_set i.upstream_key_id
  where
    key_set : (k : Option ℕ) → IsExclusive (reset_key n i k w)
    key_set none = give_up-IsExclusive n (marked i) w (λ k. refl) g h
    key_set (some key) = start_reset-IsExclusive n i key w g h
validated-IsExclusive n i w (some (status, code)) g h =
    place-IsExclusive n (marked i) (ending i status code) w (λ k. refl) (λ k. refl) g h

work_on-IsExclusive :
    (now job_id n : ℕ) (s : Worker) (a : Answer) (w : World)
    → get_elem? w.workers n ≡ some s
    → IsExclusive w
    → IsExclusive (work_on now job_id n s a w)
unfolding work_on
work_on-IsExclusive now job_id n idle a w g h = receive-IsExclusive n w.queue w g h
work_on-IsExclusive now job_id n gone a w g h = h
work_on-IsExclusive now job_id n (received i) answers w g h =
    stored-IsExclusive n (received i) (marked i) w
      (mark_quota_reset_item_running now job_id i.id w.db) (λ k. refl) (λ k. refl) g h
work_on-IsExclusive now job_id n (received i) fails w g h =
    give_up-IsExclusive n (received i) w (λ k. refl) g h
work_on-IsExclusive now job_id n (received i) (returns _ _) w g h = h
work_on-IsExclusive now job_id n (marked i) answers w g h =
    validated-IsExclusive n i w (validate_quota_reset_item i w.db) g h
work_on-IsExclusive now job_id n (marked i) fails w g h =
    give_up-IsExclusive n (marked i) w (λ k. refl) g h
work_on-IsExclusive now job_id n (marked i) (returns _ _) w g h = h
work_on-IsExclusive now job_id n (resetting i key) (returns applied e) w g h =
    reset_returned-IsExclusive n i key w (reset_terminal_state applied e) g h
work_on-IsExclusive now job_id n (resetting i key) answers w g h = h
work_on-IsExclusive now job_id n (resetting i key) fails w g h = h
work_on-IsExclusive now job_id n (ending i status code) answers w g h =
    stored-IsExclusive n (ending i status code) idle w
      (complete_quota_reset_item now job_id i.id status code w.db) (λ k. refl) (λ k. refl) g h
work_on-IsExclusive now job_id n (ending i status code) fails w g h =
    give_up-IsExclusive n (ending i status code) w (λ k. refl) g h
work_on-IsExclusive now job_id n (ending i status code) (returns _ _) w g h = h

begin_single-IsExclusive :
    (key : ℕ) (w : World)
    → IsExclusive w
    → IsExclusive (single_begun key w (begin_quota_reset key w.busy))
unfolding begin_quota_reset IsExclusive
begin_single-IsExclusive key w h = elim (Bool-cases (holds key w.busy)) [
  | inl e ↦ rw e h
  | inr e ↦ rw e (λ k. ground (arith, h k, holds-none key w.busy e))
]

end_single-IsExclusive :
    (key : ℕ) (w : World)
    → holds key w.singles ≡ true
    → IsExclusive w
    → IsExclusive
        (record w { busy = end_quota_reset key w.busy; singles = end_quota_reset key w.singles })
unfolding IsExclusive
end_single-IsExclusive key w e h k = ground (
  arith,
  h k,
  holds-some key w.singles e,
  count-end_quota_reset k key w.busy,
  count-end_quota_reset k key w.singles,
)

react-IsExclusive :
    (job_id : ℕ) (w : World) (e : Event) → IsExclusive w → IsExclusive (react job_id w e)
unfolding react
react-IsExclusive job_id w (work now n a) h = elim (Option-cases (get_elem? w.workers n)) [
  | inl g ↦ rw (g, react) h
  | inr (s, g) ↦ rw (g, react) (work_on-IsExclusive now job_id n s a w g h)
]
react-IsExclusive job_id w (begin_single key) h = begin_single-IsExclusive key w h
react-IsExclusive job_id w (end_single key) h = elim (Bool-cases (holds key w.singles)) [
  | inl e ↦ rw e (end_single-IsExclusive key w e h)
  | inr e ↦ rw e h
]
react-IsExclusive job_id w (other_tables users sessions bindings) h =
    same_parts w _ refl refl refl h

-- Whatever the order in which the workers and the rest of the portal take their steps, from a world
-- where this holds: at each key at most one operation runs, a worker's or a single one, and
-- `quotaResetKeys` holds the key exactly while it runs.
pub react_all-IsExclusive :
    (job_id : ℕ) (w : World) (es : List Event) → IsExclusive w → IsExclusive (react_all job_id w es)
unfolding react_all
react_all-IsExclusive job_id w [] h = h
react_all-IsExclusive job_id w (e ∷ es) h =
    react_all-IsExclusive job_id (react job_id w e) es (react-IsExclusive job_id w e h)
