-- ===== src/Install/Saves.antt =====
-- The backups that applyTransaction makes give the programs back.
use sub2api5hlimit.Base.{
  ℕ, zero, suc, ◌==◌, ◌<◌, Bool, true, false, if◌then◌else◌, Option, none, some, List, [], ◌∷◌,
  ◌++◌, length, ◌≡◌, refl, sym, ap, ◌∙◌, arith,
}
use sub2api5hlimit.Store.Model.{Text}
use sub2api5hlimit.Install.Machine.{
  File, SavedFile, prepared, TransactionJournal, Machine, World, return, call, ask,
}
use sub2api5hlimit.Install.Restore.{
  saved, absent, set_backup, save_file, save_from, original_of, original_at,
}
use sub2api5hlimit.Install.Holds.{
  Holds, on_return, Core, core, here, ask-Keeps, Holds-check, Holds-call, Holds-passing,
}
use sub2api5hlimit.Install.Recoverable.{Old, Recoverable, before_changes}

abbrev pub with_backup : ℕ → Text → (ℕ → Option Text) → ℕ → Option Text
with_backup i content backups k = if k == i then some content else backups k

abbrev back_with : ℕ → Text → Core → Core
back_with i content c = record c { backups = with_backup i content c.backups }

core-set_backup :
    (i : ℕ) (content : Text) (m : Machine)
    → core (set_backup i content m) ≡ back_with i content (core m)
unfolding set_backup
core-set_backup i content m = refl

length-snoc : {A : Type 0} (xs : List A) (x : A) → length (xs ++ (x ∷ [])) ≡ suc (length xs)
length-snoc [] x = refl
length-snoc (y ∷ xs) x = ap suc (length-snoc xs x)

module _ (old_portal old_updater : Option File) where
  -- What `n` backups, the first ones, give back.
  pub data SavedTo (entries : List SavedFile) (backups : ℕ → Option Text) : ℕ → Type 0 where
    none_saved : SavedTo entries backups 0
    portal_saved : original_at entries backups 0 ≡ some old_portal → SavedTo entries backups 1
    both_saved :
        {n : ℕ}
        → original_at entries backups 0 ≡ some old_portal
        → original_at entries backups 1 ≡ some old_updater
        → SavedTo entries backups (suc (suc n))

  -- What the next backup gives back.
  data Gives (e : SavedFile) (backups : ℕ → Option Text) : ℕ → Type 0 where
    gives_portal : original_of e (backups 0) ≡ some old_portal → Gives e backups 0
    gives_updater : original_of e (backups 1) ≡ some old_updater → Gives e backups 1
    gives_other : {n : ℕ} → Gives e backups (suc (suc n))

  kept_first :
      (entries : List SavedFile) (e : SavedFile) (b b' : ℕ → Option Text) {x : Option File}
      → b' 0 ≡ b 0
      → original_at entries b 0 ≡ some x
      → original_at (entries ++ (e ∷ [])) b' 0 ≡ some x
  unfolding original_at
  kept_first [] e b b' same h = absurd (cc)
  kept_first (e0 ∷ entries) e b b' same h = ap (original_of e0) same ∙ h

  kept_second :
      (entries : List SavedFile) (e : SavedFile) (b b' : ℕ → Option Text) {x : Option File}
      → b' 1 ≡ b 1
      → original_at entries b 1 ≡ some x
      → original_at (entries ++ (e ∷ [])) b' 1 ≡ some x
  unfolding original_at
  kept_second [] e b b' same h = absurd (cc)
  kept_second (e0 ∷ []) e b b' same h = absurd (cc)
  kept_second (e0 ∷ e1 ∷ entries) e b b' same h = ap (original_of e1) same ∙ h

  extend :
      (i : ℕ) (entries : List SavedFile) (e : SavedFile) (b b' : ℕ → Option Text)
      → length entries ≡ i
      → SavedTo entries b i
      → ((k : ℕ) → k < i → b' k ≡ b k)
      → Gives e b' i
      → SavedTo (entries ++ (e ∷ [])) b' (suc i)
  unfolding original_at
  extend zero [] e b b' l s same (gives_portal g) = portal_saved g
  extend zero (e0 ∷ entries) e b b' l s same g = absurd (omega arith)
  extend (suc zero) [] e b b' l s same g = absurd (omega arith)
  extend (suc zero) (e0 ∷ []) e b b' l (portal_saved h) same (gives_updater g) =
      both_saved (kept_first (e0 ∷ []) e b b' (same 0 (omega arith)) h) g
  extend (suc zero) (e0 ∷ e1 ∷ entries) e b b' l s same g = absurd (omega arith)
  extend (suc (suc n)) entries e b b' l (both_saved h h') same g =
      both_saved (kept_first entries e b b' (same 0 (omega arith)) h)
        (kept_second entries e b b' (same 1 (omega arith)) h')

  Gives-saved :
      (i : ℕ) (m : Machine) (f : File)
      → Old old_portal old_updater (core m)
      → m.files i ≡ some f
      → Gives (saved f) (with_backup i f.content m.backups) i
  Gives-saved zero m f o e = gives_portal (ap some (sym e ∙ o.old_portal_here))
  Gives-saved (suc zero) m f o e = gives_updater (ap some (sym e ∙ o.old_updater_here))
  Gives-saved (suc (suc n)) m f o e = gives_other

  Gives-absent :
      (i : ℕ) (m : Machine)
      → Old old_portal old_updater (core m)
      → m.files i ≡ none
      → Gives absent m.backups i
  Gives-absent zero m o e = gives_portal (ap some (sym e ∙ o.old_portal_here))
  Gives-absent (suc zero) m o e = gives_updater (ap some (sym e ∙ o.old_updater_here))
  Gives-absent (suc (suc n)) m o e = gives_other

  with_backup-before :
      (i : ℕ) (content : Text) (b : ℕ → Option Text) (k : ℕ)
      → k < i
      → with_backup i content b k ≡ b k
  with_backup-before i content b k h = ground arith

  -- Before anything was changed, with the journal that says so.
  pub record Unchanged (j : TransactionJournal) (c : Core) : Type 0 where
    pub on_disk : c.journal ≡ some j
    pub is_prepared : j.phase ≡ prepared
    pub is_old : Old old_portal old_updater c

  pub Unchanged-Recoverable :
      (j : TransactionJournal) (c : Core) → Unchanged j c → Recoverable old_portal old_updater c
  Unchanged-Recoverable j c u = before_changes j u.on_disk u.is_prepared u.is_old

  pub record Saving (j : TransactionJournal) (i : ℕ) (entries : List SavedFile) (c : Core)
      : Type 0 where
    pub is_unchanged : Unchanged j c
    pub counted : length entries ≡ i
    pub saved_to : SavedTo entries c.backups i

  pub data SaveEnd (j : TransactionJournal) (i : ℕ) (entries : List SavedFile) (c : Core)
      : Option SavedFile → Type 0 where
    not_saved : Unchanged j c → SaveEnd j i entries c none
    was_saved :
        {e : SavedFile} → Saving j (suc i) (entries ++ (e ∷ [])) c → SaveEnd j i entries c (some e)

  save_next :
      (j : TransactionJournal) (i : ℕ) (entries : List SavedFile) (e : SavedFile) (c c' : Core)
      → Saving j i entries c
      → Unchanged j c'
      → ((k : ℕ) → k < i → c'.backups k ≡ c.backups k)
      → Gives e c'.backups i
      → Saving j (suc i) (entries ++ (e ∷ [])) c'
  save_next j i entries e c c' s u same g = record {
    is_unchanged = u;
    counted = length-snoc entries e ∙ ap suc s.counted;
    saved_to = extend i entries e c.backups c'.backups s.counted s.saved_to same g;
  }

  data SaveCall (j : TransactionJournal) (i : ℕ) (entries : List SavedFile) (e : SavedFile)
      (c : Core) : Bool → Type 0 where
    call_saved : Saving j (suc i) (entries ++ (e ∷ [])) c → SaveCall j i entries e c true
    call_failed : Unchanged j c → SaveCall j i entries e c false

  failed_call :
      (j : TransactionJournal) (i : ℕ) (entries : List SavedFile) (e : SavedFile) (w : World)
      → SaveCall j i entries e (here w) false
      → Holds (λ c. Unchanged j c) (λ o c. SaveEnd j i entries c o) (return none w)
  failed_call j i entries e w (call_failed u) = on_return (not_saved u)

  saved_call :
      (j : TransactionJournal) (i : ℕ) (entries : List SavedFile) (e : SavedFile) (w : World)
      → SaveCall j i entries e (here w) true
      → Holds (λ c. Unchanged j c) (λ o c. SaveEnd j i entries c o) (return (some e) w)
  saved_call j i entries e w (call_saved s) = on_return (was_saved s)

  Unchanged-backup :
      (j : TransactionJournal) (i : ℕ) (content : Text) (c : Core)
      → Unchanged j c
      → Unchanged j (back_with i content c)
  Unchanged-backup j i content c u = record {
    on_disk = u.on_disk;
    is_prepared = u.is_prepared;
    is_old = record {
      old_portal_here = u.is_old.old_portal_here;
      old_updater_here = u.is_old.old_updater_here;
    };
  }

  pub save_file-Holds :
      (j : TransactionJournal) (i : ℕ) (entries : List SavedFile) (w : World)
      → Saving j i entries (here w)
      → Holds (λ c. Unchanged j c) (λ e c. SaveEnd j i entries c e) (save_file i w)
  unfolding save_file save_from
  save_file-Holds j i entries w s = go (w.machine.files i) refl
    where
      go :
          (o : Option File)
          → w.machine.files i ≡ o
          → Holds (λ c. Unchanged j c) (λ e c. SaveEnd j i entries c e) (save_from i o w)
      go none e =
          Holds-passing (λ c. Saving j i entries c × Gives absent c.backups i)
            (λ c s. s.0.is_unchanged) ask (return none) (return (some absent)) w ask-Keeps
            (s, Gives-absent i w.machine s.is_unchanged.is_old e)
            (λ w' s. on_return (not_saved s.0.is_unchanged))
            (λ w' s. on_return (
              was_saved (
                save_next j i entries absent (here w') (here w') s.0 s.0.is_unchanged (λ k h. refl)
                  s.1)))
      go (some f) e =
          let after = Unchanged-backup j i f.content (here w) s.is_unchanged in
          Holds-check (call (set_backup i f.content)) (return none) (return (some (saved f))) w
            (Holds-call (set_backup i f.content) (back_with i f.content)
              (core-set_backup i f.content) (λ c. Unchanged j c)
              (λ ok c. SaveCall j i entries (saved f) c ok) w
              (call_saved (
                save_next j i entries (saved f) (here w) (back_with i f.content (here w)) s after
                  (with_backup-before i f.content w.machine.backups)
                  (Gives-saved i w.machine f s.is_unchanged.is_old e)))
              (call_failed after) (call_failed s.is_unchanged) s.is_unchanged)
            (failed_call j i entries (saved f)) (saved_call j i entries (saved f))
