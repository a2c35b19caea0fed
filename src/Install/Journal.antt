-- ===== src/Install/Journal.antt =====
-- status.go and transaction.go of cmd/sub2api-limit-updater: the request, the status and the journal.
-- A file's JSON is the value it decodes to; times are left out, and so is the path of the backup
-- directory, which is the journal's own.
use sub2api5hlimit.Base.{
  ℕ, suc, Bool, true, false, not, ◌&&◌, ◌||◌, ◌==◌, ltb, leb, if◌then◌else◌, Option, none, some,
  List, [], ◌∷◌, length, text_eq,
}
use sub2api5hlimit.Store.Model.{Text}
use sub2api5hlimit.Version.Identifiers.{is_digit, every}
use sub2api5hlimit.Version.Updater.{SemVersion, parse_sem_version}
use sub2api5hlimit.Install.Machine.{
  UpdateRequest, SavedFile, Phase, prepared, backed_up, TransactionJournal, State, running,
  StatusPhase, UpdateStatus, Machine, Step, ◌>>=◌, return, call, ask, choose, check, look,
}
use sub2api5hlimit.Install.Config.{trim_v}

-- `^[0-9a-f]{32}$`
abbrev pub is_operation_id : Text → Bool
is_operation_id s = length s == 32 && every (λ c. is_digit c || leb b'a' c && leb c b'f') s

abbrev pub has_prefix_v : Text → Bool
has_prefix_v [] = false
has_prefix_v (c ∷ s) = c == b'v'

-- `parseSemVersion` succeeds, without a prerelease.
abbrev pub is_stable : Option SemVersion → Bool
is_stable none = false
is_stable (some version) = length version.pre == 0

unfoldable pub is_valid_request : UpdateRequest → Bool
unfolding parse_sem_version
is_valid_request r =
    r.schema == 1
    && is_operation_id r.operation_id
    && ltb 0 r.requested_at
    && has_prefix_v r.target_version
    && every (λ c. not (c == b'+')) r.target_version
    && is_stable (parse_sem_version (trim_v r.target_version))

-- A file that is read is not there, cannot be read or does not decode, or gives a value.
pub data Reading (A : Type 0) : Type 0 where
  missing unreadable : Reading A
  read : A → Reading A

abbrev pub checked : {A : Type 0} → (A → Bool) → Option A → Reading A
checked test none = missing
checked test (some a) = if test a then read a else unreadable

unfoldable pub read_with : {A : Type 0} → (Machine → Reading A) → Step (Reading A)
unfolding call
read_with f = check ask (return unreadable) (look f)

unfoldable pub read_update_request : Step (Reading UpdateRequest)
unfolding read_with is_valid_request
read_update_request = read_with (λ m. checked is_valid_request m.request)

abbrev pub is_valid_status : UpdateStatus → Bool
is_valid_status s = s.schema == 1 && is_operation_id s.operation_id

unfoldable pub read_update_status : Step (Reading UpdateStatus)
unfolding read_with
read_update_status = read_with (λ m. checked is_valid_status m.status)

unfoldable pub set_status : UpdateStatus → Machine → Machine
set_status s m = record m { status = some s }

unfoldable pub set_request : Option UpdateRequest → Machine → Machine
set_request r m = record m { request = r }

-- newStatusWriter with `running`, and `finish`.
abbrev pub running_status : UpdateRequest → StatusPhase → UpdateStatus
running_status r phase = record {
  schema = 1;
  operation_id = r.operation_id;
  target_version = r.target_version;
  state = running;
  phase = phase;
  error_code = [];
  finished = false;
  was_rolled_back = false;
}

unfoldable pub report_running : UpdateRequest → StatusPhase → Step Bool
unfolding call set_status
report_running r phase = call (set_status (running_status r phase))

abbrev pub finished_status : UpdateRequest → State → StatusPhase → Text → Bool → UpdateStatus
finished_status r state phase error_code was_rolled_back = record {
  schema = 1;
  operation_id = r.operation_id;
  target_version = r.target_version;
  state = state;
  phase = phase;
  error_code = error_code;
  finished = true;
  was_rolled_back = was_rolled_back;
}

unfoldable pub report_finish : UpdateRequest → State → StatusPhase → Text → Bool → Step Bool
unfolding call set_status
report_finish r state phase error_code was_rolled_back =
    call (set_status (finished_status r state phase error_code was_rolled_back))

unfoldable pub consume_update_request : Step Bool
unfolding call set_request
consume_update_request = call (set_request none)

unfoldable pub consume_read : Text → Reading UpdateRequest → Step Bool
unfolding consume_update_request
consume_read id missing = return true
consume_read id unreadable = return false
consume_read id (read request) =
    choose (text_eq request.operation_id id) (return true) consume_update_request

unfoldable pub consume_request_for_operation : Text → Step Bool
unfolding read_update_request consume_read
consume_request_for_operation id = read_update_request >>= consume_read id

abbrev is_over : State → Bool
is_over running = false
is_over _ = true

abbrev pub is_finished_request : UpdateRequest → UpdateStatus → Bool
is_finished_request r s = text_eq s.operation_id r.operation_id && s.finished && is_over s.state

-- Whether the request was one already finished, and whether there was no error.
unfoldable pub consume_finished_request : Step (Bool × Bool)
unfolding read_update_request read_update_status consume_request_for_operation
consume_finished_request = read_update_request >>= λ r. elim r [
  | read request ↦ read_update_status >>= λ s. elim s [
    | missing ↦ return (false, true)
    | unreadable ↦ return (false, false)
    | read status ↦
        choose (is_finished_request request status) (return (false, true))
          (consume_request_for_operation request.operation_id >>= λ ok. return (true, ok))
  ]
  | _ ↦ return (false, true)
]

abbrev pub is_some : {A : Type 0} → Option A → Bool
is_some none = false
is_some (some _) = true

-- The loop over the entries of a backed up transaction, from the slot `i` on.
abbrev pub are_valid_entries : ℕ → (ℕ → Option Text) → List SavedFile → Bool
are_valid_entries i backups [] = true
are_valid_entries i backups (e ∷ entries) =
    leb e.mode 0x1ff
    && (not e.existed || is_some (backups i))
    && are_valid_entries (suc i) backups entries

abbrev pub is_valid_phase : Phase → (ℕ → Option Text) → TransactionJournal → Bool
is_valid_phase prepared backups j = length j.files == 0 && j.restore_cursor == 0
is_valid_phase backed_up backups j =
    length j.files == 5
    && leb j.restore_cursor (length j.files)
    && are_valid_entries 0 backups j.files

unfoldable pub validate_transaction_journal : (ℕ → Option Text) → TransactionJournal → Bool
unfolding is_valid_request parse_sem_version
validate_transaction_journal backups j =
    j.schema == 1
    && is_valid_request j.request
    && is_stable (parse_sem_version (trim_v j.old_version))
    && is_valid_phase j.phase backups j

unfoldable pub set_journal : Option TransactionJournal → Machine → Machine
set_journal j m = record m { journal = j }

unfoldable pub write_transaction_journal : TransactionJournal → Step Bool
unfolding call validate_transaction_journal set_journal
write_transaction_journal j = look (λ m. validate_transaction_journal m.backups j) >>= λ valid.
    choose valid (return false) (call (set_journal (some j)))

unfoldable pub read_transaction_journal : Step (Reading TransactionJournal)
unfolding read_with validate_transaction_journal
read_transaction_journal =
    read_with (λ m. checked (validate_transaction_journal m.backups) m.journal)

unfoldable pub remove_transaction_journal : Step Bool
unfolding call set_journal
remove_transaction_journal = call (set_journal none)
