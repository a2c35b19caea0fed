-- ===== src/Install/Machine.antt =====
-- What the updater works on: the five managed files, their backups, its journal, the request and
-- the status beside them, and the portal's service. A file system call, a command and a check of
-- the context take one event each: what the portal wrote before it, and how it goes. A command that
-- fails may have printed anything.
use sub2api5hlimit.Base.{
  ℕ, Bool, true, false, ◌&&◌, ◌==◌, leb, if◌then◌else◌, Option, List, [], ◌∷◌,
}
use sub2api5hlimit.Store.Model.{Text}

pub record File : Type 0 where
  pub content : Text
  pub mode : ℕ
  pub owner : Option (ℕ × ℕ)

-- The slots: 0 the portal, 1 the updater, 2 to 4 the database with its two side files.
abbrev pub Files : Type 0
Files = ℕ → Option File

abbrev pub put_file : ℕ → Option File → Files → Files
put_file i f files = λ k. if k == i then f else files k

pub record UpdateRequest : Type 0 where
  pub schema : ℕ
  pub operation_id : Text
  pub target_version : Text
  pub requested_at : ℕ

-- transactionFile and savedFile; the paths are those of the slot.
pub record SavedFile : Type 0 where
  pub existed : Bool
  pub mode : ℕ
  pub owner : Option (ℕ × ℕ)

pub data Phase : Type 0 where
  prepared backed_up : Phase

pub record TransactionJournal : Type 0 where
  pub schema : ℕ
  pub request : UpdateRequest
  pub phase : Phase
  pub old_version : Text
  pub was_active : Bool
  pub files : List SavedFile
  pub restore_cursor : ℕ

pub data State : Type 0 where
  running succeeded failed : State

pub data StatusPhase : Type 0 where
  checking downloading verifying backing_up installing restarting health_check : StatusPhase
  recovering completed up_to_date manual_required rolled_back rollback_failed : StatusPhase

pub record UpdateStatus : Type 0 where
  pub schema : ℕ
  pub operation_id : Text
  pub target_version : Text
  pub state : State
  pub phase : StatusPhase
  pub error_code : Text
  pub finished : Bool
  pub was_rolled_back : Bool

pub record Machine : Type 0 where
  pub files : Files
  pub backups : ℕ → Option Text
  pub journal : Option TransactionJournal
  pub request : Option UpdateRequest
  pub status : Option UpdateStatus
  pub active : Bool

-- A call succeeds; it fails without effect; it takes effect and still reports an error, as a rename
-- whose directory cannot be synced; or the process dies before it.
pub data Outcome : Type 0 where
  fine fails fails_late dies : Outcome

pub record Event : Type 0 where
  pub outcome : Outcome
  pub printed : Text
  pub portal_writes : Files

pub record World : Type 0 where
  pub machine : Machine
  pub events : List Event

pub data Out {ℓ} (A : Type ℓ) : Type ℓ where
  done : A → World → Out A
  died : Machine → Out A

abbrev pub Step : Type 0 → Type 0
Step A = World → Out A

abbrev pub bind {ℓ} : {A B : Type ℓ} → Out A → (A → World → Out B) → Out B
bind (done a w) f = f a w
bind (died m) f = died m

infixl 5 ◌>>=◌ ◌>>◌
abbrev pub ◌>>=◌ : {A B : Type 0} → Step A → (A → Step B) → Step B
◌>>=◌ m f w = bind (m w) f

abbrev pub ◌>>◌ : {A B : Type 0} → Step A → Step B → Step B
m >> k = m >>= λ _. k

abbrev pub return : {A : Type 0} → A → Step A
return a w = done a w

-- While the service is active the portal writes its database.
unfoldable pub portal_runs : Files → Machine → Machine
portal_runs writes m = record m { files = λ k. if leb 2 k && m.active then writes k else m.files k }

abbrev pub happen : Outcome → (Machine → Machine) → Machine → List Event → Out Bool
happen fine effect m events = done true (record { machine = effect m; events = events })
happen fails effect m events = done false (record { machine = m; events = events })
happen fails_late effect m events = done false (record { machine = effect m; events = events })
happen dies effect m events = died m

-- One call; past the end of the events nothing fails.
unfoldable pub perform : List Event → (Machine → Machine) → Machine → Out Bool
unfolding portal_runs
perform [] effect m = done true (record { machine = effect m; events = [] })
perform (e ∷ events) effect m = happen e.outcome effect (portal_runs e.portal_writes m) events

unfoldable pub call : (Machine → Machine) → Step Bool
unfolding perform
call effect w = perform w.events effect w.machine

-- `ctx.Err()`, and a command whose answer alone matters.
abbrev pub ask : Step Bool
ask = call (λ m. m)

-- A command and what it prints.
abbrev pub answer : (Machine → Text) → Text → Out Bool → Out (Bool × Text)
answer f text (done true w) = done (true, f w.machine) w
answer f text (done false w) = done (false, text) w
answer f text (died m') = died m'

abbrev pub printed_first : List Event → Text
printed_first [] = []
printed_first (e ∷ _) = e.printed

unfoldable pub run_command : (Machine → Text) → Step (Bool × Text)
unfolding call
run_command f w = answer f (printed_first w.events) (ask w)

-- `if err := m; err != nil { otherwise }`
abbrev pub choose : {A : Type 0} → Bool → Step A → Step A → Step A
choose true _ next = next
choose false otherwise _ = otherwise

abbrev pub check : {A : Type 0} → Step Bool → Step A → Step A → Step A
check m otherwise next = m >>= λ ok. choose ok otherwise next

-- What the program reads of the machine.
abbrev pub look : {A : Type 0} → (Machine → A) → Step A
look f w = done (f w.machine) w
