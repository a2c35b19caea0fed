-- ===== src/Install/Config.antt =====
-- The part of updaterConfig, in cmd/sub2api-limit-updater/config.go, that the installation reads,
-- and the commands it runs: apply.go's serviceState, serviceIsActive, stopPortalService,
-- waitForHealthy and binaryVersion. What a program prints as its version is a parameter.
use sub2api5hlimit.Base.{
  ℕ, suc, zero, Bool, true, false, not, ◌&&◌, ◌||◌, ◌==◌, if◌then◌else◌, Option, none, some, List,
  [], ◌∷◌, ◌++◌, codes, text_eq, trim_space, trim_left, trim_right,
}
use sub2api5hlimit.Store.Model.{Text}
use sub2api5hlimit.Version.Identifiers.{split, is_empty}
use sub2api5hlimit.Version.Updater.{
  SemVersion, Comparison, same, parse_sem_version, compare_sem_version,
}
use sub2api5hlimit.Install.Machine.{
  File, Machine, Step, ◌>>=◌, return, call, ask, run_command, choose, check,
}

pub record Config : Type 0 where
  pub goarch : Text
  pub ready_attempts : ℕ
  -- What the program with this content prints on `version`.
  pub program_output : Text → Text

pub data ServiceState : Type 0 where
  up settling deactivating stopped unknown : ServiceState

-- serviceState's switch: `active`; `activating` and `reloading`; `deactivating`; `inactive` and
-- `failed`; anything else.
abbrev pub state_of : Text → ServiceState
unfolding trim_space trim_left
state_of output =
    let state = trim_space output in
    if text_eq state (codes "active")
    then up
    else if text_eq state (codes "activating") || text_eq state (codes "reloading")
    then settling
    else if text_eq state (codes "deactivating")
    then deactivating
    else if text_eq state (codes "inactive") || text_eq state (codes "failed")
    then stopped
    else unknown

-- `systemctl is-active`
unfoldable pub is_active_output : Machine → Text
is_active_output m = if m.active then codes "active" else codes "inactive"

unfoldable pub service_state : Step ServiceState
unfolding run_command is_active_output trim_space trim_left
service_state = run_command is_active_output >>= λ r. return (state_of r.1)

-- Whether the service is active, or the error.
abbrev pub is_active : ServiceState → Option Bool
is_active up = some true
is_active stopped = some false
is_active _ = none

unfoldable pub service_is_active : Step (Option Bool)
unfolding service_state
service_is_active = service_state >>= λ s. return (is_active s)

-- Whether it stopped, and whether there was no error.
pub data Stop : Type 0 where
  stopped_ok stopped_late not_stopped : Stop

-- The wait of stopPortalService, with the attempts left.
unfoldable pub wait_stopped : ℕ → Step Stop
unfolding service_state call
wait_stopped zero = return not_stopped
wait_stopped (suc n) = service_state >>= λ s. elim s [
  | stopped ↦ return stopped_late
  | unknown ↦ return not_stopped
  | _ ↦ check ask (return not_stopped) (wait_stopped n)
]

unfoldable pub set_active : Bool → Machine → Machine
set_active b m = record m { active = b }

unfoldable pub stop_portal_service : Step Stop
unfolding call set_active wait_stopped
stop_portal_service = check (call (set_active false)) (wait_stopped 120) (return stopped_ok)

unfoldable pub start_service : Step Bool
unfolding call set_active
start_service = call (set_active true)

abbrev pub is_kind : Text → Bool
is_kind kind = text_eq kind (codes "portal") || text_eq kind (codes "updater")

abbrev pub is_arch : Text → Bool
is_arch arch = text_eq arch (codes "amd64") || text_eq arch (codes "arm64")

-- `\s` of a regular expression.
abbrev pub is_blank : ℕ → Bool
is_blank c = c == 9 || c == 10 || c == 12 || c == 13 || c == 32

-- versionOutputPattern, and the comparisons of its first and last group.
abbrev pub version_group : Text → Text → List Text → Option Text
version_group kind arch (name ∷ version ∷ platform ∷ []) =
    if is_kind kind
      && text_eq name (codes "sub2api-limit-" ++ kind)
      && not (is_empty version)
      && is_arch arch
      && text_eq platform (codes "(linux/" ++ arch ++ codes ")")
    then some version
    else none
version_group kind arch _ = none

unfoldable pub version_in : Text → Text → Text → Option Text
unfolding split trim_right
version_in kind arch output = version_group kind arch (split b' ' (trim_right is_blank output))

-- `strings.TrimPrefix(version, "v")`
abbrev pub trim_v : Text → Text
trim_v [] = []
trim_v (c ∷ s) = if c == b'v' then s else c ∷ s

abbrev pub is_same : Comparison → Bool
is_same same = true
is_same _ = false

abbrev pub are_same : Option SemVersion → Option SemVersion → Bool
unfolding compare_sem_version
are_same (some a) (some b) = is_same (compare_sem_version a b)
are_same _ _ = false

unfoldable pub is_version : Text → Text → Text → Text → Bool
unfolding parse_sem_version version_in
is_version kind arch expected output = elim (version_in kind arch output) [
  | none ↦ false
  | some version ↦ are_same (parse_sem_version version) (parse_sem_version (trim_v expected))
]

-- What the file in a slot prints.
abbrev pub output_of : Config → Option File → Text
output_of cfg none = []
output_of cfg (some f) = cfg.program_output f.content

-- binaryVersion of the installed portal.
unfoldable pub portal_version : Config → Text → Step Bool
unfolding run_command is_version
portal_version cfg expected = run_command (λ m. output_of cfg (m.files 0)) >>= λ r.
    return (r.0 && is_version (codes "portal") cfg.goarch expected r.1)

-- One attempt of waitForHealthy; the request for `/readyz` is one call.
unfoldable pub is_ready : Config → Text → Step Bool
unfolding service_is_active portal_version call
is_ready cfg expected = service_is_active >>= λ active. elim active [
  | some true ↦ check ask (return false) (portal_version cfg expected)
  | _ ↦ return false
]

unfoldable pub poll_ready : Config → Text → ℕ → Step Bool
unfolding is_ready call
poll_ready cfg expected zero = return false
poll_ready cfg expected (suc n) =
    let rest = poll_ready cfg expected n in
    is_ready cfg expected >>= λ ready.
    choose ready (elim n [ zero ↦ return false | suc _ ↦ check ask (return false) rest ])
      (return true)

-- Reading the portal's environment is one call.
unfoldable pub wait_for_healthy : Config → Text → Step Bool
unfolding poll_ready call
wait_for_healthy cfg expected =
    check ask (return false) (poll_ready cfg expected cfg.ready_attempts)
