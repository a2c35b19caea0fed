-- ===== src/Http/ResetJob/Sends.antt =====
-- internal/httpapi/quota_resets.go: for which items a worker of a batch job sends a reset.
use sub2api5hlimit.Base.{
  ℕ, suc, zero, ◌≡◌, refl, sym, ◌∙◌, inl, inr, Bool, true, false, Option, none, some, List, [], ◌∷◌,
  get_elem?, set, codes, Bool-cases, arith,
}
use sub2api5hlimit.Store.Model.{Text, ItemStatus, QuotaResetJobItem, Db}
use sub2api5hlimit.Store.Tx.{Result, ok, err}
use sub2api5hlimit.Store.QuotaReset.Items.{mark_quota_reset_item_running, complete_quota_reset_item}
use sub2api5hlimit.Http.ResetItem.{validate_quota_reset_item, holds, begin_quota_reset}
use sub2api5hlimit.Http.ResetItem.Outcomes.{MayReset, passed-MayReset}
use sub2api5hlimit.Http.ResetJob.{
  Worker, idle, gone, received, marked, resetting, ending, World, Answer, answers, fails, returns,
  work_on, receive, stored, validated, reset_key, start_reset,
}

-- Worker n, which holds a place, stands where it was put.
get_elem?-set {ℓ} :
    {A : Type ℓ} (xs : List A) (n : ℕ) (v s : A)
    → get_elem? xs n ≡ some s
    → get_elem? (set xs n v) n ≡ some v
get_elem?-set [] n v s h = absurd (cc)
get_elem?-set (x ∷ xs) zero v s h = refl
get_elem?-set (x ∷ xs) (suc n) v s h = get_elem?-set xs n v s h

begun :
    (busy : List ℕ) (key : ℕ) (b : List ℕ)
    → begin_quota_reset key busy ≡ some b
    → (holds key busy ≡ false) × (b ≡ key ∷ busy)
unfolding begin_quota_reset
begun busy key b h = ground arith

-- A place for worker n other than the upstream call.
abbrev is_resetting : Worker → Bool
is_resetting (resetting _ _) = true
is_resetting _ = false

not_sent {ℓ} :
    {P : Type ℓ} (n : ℕ) (v s : Worker) (ws : List Worker) (i : QuotaResetJobItem) (key : ℕ)
    → is_resetting v ≡ false
    → get_elem? ws n ≡ some s
    → get_elem? (set ws n v) n ≡ some (resetting i key)
    → P
not_sent n v s ws i key rest h e =
    let same : some v ≡ some (resetting i key) = sym (get_elem?-set ws n v s h) ∙ e in
    let q : v ≡ resetting i key = cc in absurd (cc (rw q at rest))

-- What a worker that enters the upstream call found: the item, the tables and the keys in use.
abbrev pub Entered : ℕ → QuotaResetJobItem → ℕ → Worker → World → World → Type 0
Entered n i key s w w' =
    (s ≡ marked i) × MayReset i key w.db × (holds key w.busy ≡ false) × (w'.busy ≡ key ∷ w.busy)

started :
    (n : ℕ) (i i' : QuotaResetJobItem) (key k : ℕ) (w : World) (o : Option (List ℕ))
    → get_elem? w.workers n ≡ some (marked i)
    → begin_quota_reset k w.busy ≡ o
    → i.upstream_key_id ≡ some k
    → validate_quota_reset_item i w.db ≡ none
    → get_elem? (start_reset n i k w o).workers n ≡ some (resetting i' key)
    → Entered n i' key (marked i) w (start_reset n i k w o)
started n i i' key k w none g b h v e =
    not_sent n (ending i ItemStatus.skipped (codes "RESET_IN_PROGRESS")) (marked i) w.workers i' key
      refl g e
started n i i' key k w (some busy) g b h v e =
    let same : some (resetting i k) ≡ some (resetting i' key) =
      sym (get_elem?-set w.workers n (resetting i k) (marked i) g) ∙ e in
    let item : i ≡ i' = cc in
    let at_key : k ≡ key = cc in
    let (free, taken) = begun w.busy k busy b in
    rw (← item, ← at_key) (refl, passed-MayReset i k w.db v h, free, taken)

keyed :
    (n : ℕ) (i i' : QuotaResetJobItem) (key : ℕ) (w : World) (o : Option ℕ)
    → get_elem? w.workers n ≡ some (marked i)
    → i.upstream_key_id ≡ o
    → validate_quota_reset_item i w.db ≡ none
    → get_elem? (reset_key n i o w).workers n ≡ some (resetting i' key)
    → Entered n i' key (marked i) w (reset_key n i o w)
keyed n i i' key w none g h v e = not_sent n idle (marked i) w.workers i' key refl g e
keyed n i i' key w (some k) g h v e =
    started n i i' key k w (begin_quota_reset k w.busy) g refl h v e

checked :
    (n : ℕ) (i i' : QuotaResetJobItem) (key : ℕ) (w : World) (o : Option (ItemStatus × Text))
    → get_elem? w.workers n ≡ some (marked i)
    → validate_quota_reset_item i w.db ≡ o
    → get_elem? (validated n i w o).workers n ≡ some (resetting i' key)
    → Entered n i' key (marked i) w (validated n i w o)
checked n i i' key w none g v e = keyed n i i' key w i.upstream_key_id g refl v e
checked n i i' key w (some (status, code)) g v e =
    not_sent n (ending i status code) (marked i) w.workers i' key refl g e

unsent_store {ℓ} :
    {P : Type ℓ} (n : ℕ) (v s : Worker) (w : World) (o : Db × Result (Unit {0}))
    (i : QuotaResetJobItem) (key : ℕ)
    → is_resetting v ≡ false
    → get_elem? w.workers n ≡ some s
    → get_elem? (stored n v w o).workers n ≡ some (resetting i key)
    → P
unsent_store n v s w (db, ok _) i key rest g e = not_sent n v s w.workers i key rest g e
unsent_store n v s w (db, err _) i key rest g e = not_sent n idle s w.workers i key refl g e

unsent_receive {ℓ} :
    {P : Type ℓ} (n : ℕ) (w : World) (q : List QuotaResetJobItem) (i : QuotaResetJobItem) (key : ℕ)
    → get_elem? w.workers n ≡ some idle
    → get_elem? (receive n q w).workers n ≡ some (resetting i key)
    → P
unsent_receive n w [] i key g e = not_sent n gone idle w.workers i key refl g e
unsent_receive n w (x ∷ xs) i key g e = elim (Bool-cases w.fatal) [
  | inl f ↦ absurd (cc (sym g ∙ (rw f at e)))
  | inr f ↦ not_sent n (received x) idle w.workers i key refl g (rw f at e)
]

-- A worker that was not in the upstream call and enters it with one step, whatever was answered, had
-- marked that item; the item's user is there with the role 'user' and not deleted, the user's
-- binding is to the item's key, which is positive and not missing; and no operation held that key,
-- which is then held.
pub work_on-Entered :
    (now job n : ℕ) (s : Worker) (a : Answer) (w : World) (i : QuotaResetJobItem) (key : ℕ)
    → get_elem? w.workers n ≡ some s
    → is_resetting s ≡ false
    → get_elem? (work_on now job n s a w).workers n ≡ some (resetting i key)
    → Entered n i key s w (work_on now job n s a w)
unfolding work_on
work_on-Entered now job n idle a w i key g rest e = unsent_receive n w w.queue i key g e
work_on-Entered now job n gone a w i key g rest e = absurd (cc (sym g ∙ e))
work_on-Entered now job n (received x) answers w i key g rest e =
    unsent_store n (marked x) (received x) w (mark_quota_reset_item_running now job x.id w.db) i key
      refl g e
work_on-Entered now job n (received x) fails w i key g rest e =
    not_sent n idle (received x) w.workers i key refl g e
work_on-Entered now job n (received x) (returns _ _) w i key g rest e = absurd (cc (sym g ∙ e))
work_on-Entered now job n (marked x) answers w i key g rest e =
    checked n x i key w (validate_quota_reset_item x w.db) g refl e
work_on-Entered now job n (marked x) fails w i key g rest e =
    not_sent n idle (marked x) w.workers i key refl g e
work_on-Entered now job n (marked x) (returns _ _) w i key g rest e = absurd (cc (sym g ∙ e))
work_on-Entered now job n (resetting x k) a w i key g rest e = absurd (cc)
work_on-Entered now job n (ending x status code) answers w i key g rest e =
    unsent_store n idle (ending x status code) w
      (complete_quota_reset_item now job x.id status code w.db) i key refl g e
work_on-Entered now job n (ending x status code) fails w i key g rest e =
    not_sent n idle (ending x status code) w.workers i key refl g e
work_on-Entered now job n (ending x status code) (returns _ _) w i key g rest e =
    absurd (cc (sym g ∙ e))
