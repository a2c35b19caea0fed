-- ===== src/Install/Restore.antt =====
-- Saving, replacing and restoring the managed files: saveFile, atomicInstall and restoreFile of files.go,
-- and restoreTransactionFiles of apply.go, in cmd/sub2api-limit-updater. A file is replaced by one rename.
use sub2api5hlimit.Base.{
  ℕ, zero, suc, ◌-◌, Bool, true, false, ◌==◌, if◌then◌else◌, Option, none, some, List, [], ◌∷◌,
  length,
}
use sub2api5hlimit.Store.Model.{Text}
use sub2api5hlimit.Install.Machine.{
  File, put_file, SavedFile, TransactionJournal, Machine, Step, ◌>>=◌, return, call, ask, check,
  look,
}
use sub2api5hlimit.Install.Journal.{write_transaction_journal}

unfoldable pub set_file : ℕ → Option File → Machine → Machine
set_file i f m = record m { files = put_file i f m.files }

unfoldable pub set_backup : ℕ → Text → Machine → Machine
set_backup i content m = record m { backups = λ k. if k == i then some content else m.backups k }

-- saveFile: the entry, or nothing on an error.
abbrev pub saved : File → SavedFile
saved f = record { existed = true; mode = f.mode; owner = f.owner }

abbrev pub absent : SavedFile
absent = record { existed = false; mode = 0; owner = none }

unfoldable pub save_from : ℕ → Option File → Step (Option SavedFile)
unfolding call set_backup
save_from i none = check ask (return none) (return (some absent))
save_from i (some f) = check (call (set_backup i f.content)) (return none) (return (some (saved f)))

unfoldable pub save_file : ℕ → Step (Option SavedFile)
unfolding save_from
save_file i = look (λ m. m.files i) >>= save_from i

-- atomicInstall with mode 0755: the new file keeps the owner of the one it replaces.
unfoldable pub install_over : ℕ → Text → Option File → Step Bool
unfolding call set_file
install_over i content none = return false
install_over i content (some f) =
    call (set_file i (some (record { content = content; mode = 0x1ed; owner = f.owner })))

unfoldable pub atomic_install : ℕ → Text → Step Bool
unfolding install_over
atomic_install i content = look (λ m. m.files i) >>= install_over i content

-- What an entry gives back, if its backup is there.
abbrev pub original_of : SavedFile → Option Text → Option (Option File)
original_of e backup =
    if e.existed
    then elim backup [
      | none ↦ none
      | some content ↦ some (some (record { content = content; mode = e.mode; owner = e.owner }))
    ]
    else some none

-- The file of slot `i` as the entries and the backups have it.
abbrev pub entry_at : ℕ → List SavedFile → Option SavedFile
entry_at i [] = none
entry_at zero (e ∷ entries) = some e
entry_at (suc i) (e ∷ entries) = entry_at i entries

unfoldable pub original_at : List SavedFile → (ℕ → Option Text) → ℕ → Option (Option File)
original_at entries backups i = elim (entry_at i entries) [
  | none ↦ none
  | some e ↦ original_of e (backups i)
]

unfoldable pub put_back : ℕ → Option (Option File) → Step Bool
unfolding call set_file
put_back i none = return false
put_back i (some f) = call (set_file i f)

unfoldable pub restore_file : ℕ → List SavedFile → Step Bool
unfolding call original_at put_back
restore_file i entries =
    check ask (return false)
      (look (λ m. original_at entries m.backups i) >>= λ original. put_back i original)

abbrev pub advance : TransactionJournal → TransactionJournal
advance j = record j { restore_cursor = suc j.restore_cursor }

-- The loop with `n` entries left, whose index is then `n - 1`.
unfoldable pub restore_each : ℕ → TransactionJournal → Step Bool
unfolding restore_file write_transaction_journal
restore_each zero j = return true
restore_each (suc n) j =
    check (restore_file n j.files) (return false)
      (check (write_transaction_journal (advance j)) (return false) (restore_each n (advance j)))

unfoldable pub restore_transaction_files : TransactionJournal → Step Bool
unfolding restore_each
restore_transaction_files j = restore_each (length j.files - j.restore_cursor) j
