-- ===== src/Install/Quiet.antt =====
-- The commands, the status and the request change neither the programs nor the backups nor the journal.
use sub2api5hlimit.Base.{ℕ, zero, suc, Bool, true, false, Option, none, some, refl, text_eq}
use sub2api5hlimit.Store.Model.{Text}
use sub2api5hlimit.Install.Machine.{
  Machine, UpdateRequest, State, StatusPhase, Step, return, call, ask, check, look, run_command,
}
use sub2api5hlimit.Install.Config.{
  Config, ServiceState, up, settling, deactivating, stopped, unknown, state_of, is_active,
  is_active_output, service_state, service_is_active, stopped_ok, stopped_late, not_stopped,
  wait_stopped, set_active, stop_portal_service, start_service, output_of, portal_version, is_ready,
  poll_ready, wait_for_healthy,
}
use sub2api5hlimit.Install.Journal.{
  Reading, missing, unreadable, read, read_with, set_status, set_request, report_running,
  report_finish, read_update_request, consume_update_request, consume_read,
  consume_request_for_operation,
}
use sub2api5hlimit.Install.Transaction.{restart_old}
use sub2api5hlimit.Install.Holds.{
  on_return, Keeps, call-Keeps, ask-Keeps, return-Keeps, bind-Keeps, choose-Keeps, check-Keeps,
  run_command-Keeps,
}

pub look-Keeps : {A : Type 0} (f : Machine → A) → Keeps (look f)
look-Keeps f = record { keeps = λ P w p. on_return p }

pub service_state-Keeps : Keeps service_state
unfolding service_state
service_state-Keeps =
    bind-Keeps (run_command is_active_output) (λ r. return (state_of r.1))
      (run_command-Keeps is_active_output) (λ r. return-Keeps (state_of r.1))

pub service_is_active-Keeps : Keeps service_is_active
unfolding service_is_active
service_is_active-Keeps =
    bind-Keeps service_state (λ s. return (is_active s)) service_state-Keeps
      (λ s. return-Keeps (is_active s))

wait_stopped-Keeps : (n : ℕ) → Keeps (wait_stopped n)
unfolding wait_stopped
wait_stopped-Keeps zero = return-Keeps not_stopped
wait_stopped-Keeps (suc n) = bind-Keeps service_state _ service_state-Keeps (
    go (
      check-Keeps ask (return not_stopped) (wait_stopped n) ask-Keeps (return-Keeps not_stopped)
        (wait_stopped-Keeps n)))
  where
    go :
        Keeps (check ask (return not_stopped) (wait_stopped n))
        → (s : ServiceState)
        → Keeps (elim s [
          | stopped ↦ return stopped_late
          | unknown ↦ return not_stopped
          | _ ↦ check ask (return not_stopped) (wait_stopped n)
        ])
    go again stopped = return-Keeps stopped_late
    go again unknown = return-Keeps not_stopped
    go again up = again
    go again settling = again
    go again deactivating = again

set_active-Keeps : (b : Bool) → Keeps (call (set_active b))
unfolding set_active
set_active-Keeps b = call-Keeps (set_active b) (λ m. refl)

pub stop_portal_service-Keeps : Keeps stop_portal_service
unfolding stop_portal_service
stop_portal_service-Keeps =
    check-Keeps (call (set_active false)) (wait_stopped 120) (return stopped_ok)
      (set_active-Keeps false) (wait_stopped-Keeps 120) (return-Keeps stopped_ok)

pub start_service-Keeps : Keeps start_service
unfolding start_service
start_service-Keeps = set_active-Keeps true

pub portal_version-Keeps : (cfg : Config) (v : Text) → Keeps (portal_version cfg v)
unfolding portal_version
portal_version-Keeps cfg v =
    bind-Keeps (run_command (λ m. output_of cfg (m.files 0))) _
      (run_command-Keeps (λ m. output_of cfg (m.files 0))) (λ r. return-Keeps _)

is_ready-Keeps : (cfg : Config) (v : Text) → Keeps (is_ready cfg v)
unfolding is_ready
is_ready-Keeps cfg v = bind-Keeps service_is_active _ service_is_active-Keeps go
  where
    go :
        (active : Option Bool)
        → Keeps (elim active [
          | some true ↦ check ask (return false) (portal_version cfg v)
          | _ ↦ return false
        ])
    go (some true) =
        check-Keeps ask (return false) (portal_version cfg v) ask-Keeps (return-Keeps false)
          (portal_version-Keeps cfg v)
    go (some false) = return-Keeps false
    go none = return-Keeps false

poll_ready-Keeps : (cfg : Config) (v : Text) (n : ℕ) → Keeps (poll_ready cfg v n)
unfolding poll_ready
poll_ready-Keeps cfg v zero = return-Keeps false
poll_ready-Keeps cfg v (suc n) =
    check-Keeps (is_ready cfg v) _ (return true) (is_ready-Keeps cfg v)
      (again n (poll_ready cfg v n) (poll_ready-Keeps cfg v n)) (return-Keeps true)
  where
    again :
        (n : ℕ) (rest : Step Bool)
        → Keeps rest
        → Keeps (elim n [ zero ↦ return false | suc _ ↦ check ask (return false) rest ])
    again zero rest k = return-Keeps false
    again (suc n) rest k = check-Keeps ask (return false) rest ask-Keeps (return-Keeps false) k

pub wait_for_healthy-Keeps : (cfg : Config) (v : Text) → Keeps (wait_for_healthy cfg v)
unfolding wait_for_healthy
wait_for_healthy-Keeps cfg v =
    check-Keeps ask (return false) (poll_ready cfg v cfg.ready_attempts) ask-Keeps
      (return-Keeps false) (poll_ready-Keeps cfg v cfg.ready_attempts)

pub report_running-Keeps :
    (r : UpdateRequest) (phase : StatusPhase) → Keeps (report_running r phase)
unfolding report_running set_status
report_running-Keeps r phase = call-Keeps _ (λ m. refl)

pub report_finish-Keeps :
    (r : UpdateRequest) (state : State) (phase : StatusPhase) (code : Text) (b : Bool)
    → Keeps (report_finish r state phase code b)
unfolding report_finish set_status
report_finish-Keeps r state phase code b = call-Keeps _ (λ m. refl)

pub read_with-Keeps : {A : Type 0} (f : Machine → Reading A) → Keeps (read_with f)
unfolding read_with
read_with-Keeps f =
    check-Keeps ask (return unreadable) (look f) ask-Keeps (return-Keeps unreadable) (look-Keeps f)

consume_update_request-Keeps : Keeps consume_update_request
unfolding consume_update_request set_request
consume_update_request-Keeps = call-Keeps (set_request none) (λ m. refl)

consume_read-Keeps : (id : Text) (r : Reading UpdateRequest) → Keeps (consume_read id r)
unfolding consume_read
consume_read-Keeps id missing = return-Keeps true
consume_read-Keeps id unreadable = return-Keeps false
consume_read-Keeps id (read request) =
    choose-Keeps (text_eq request.operation_id id) (return true) consume_update_request
      (return-Keeps true) consume_update_request-Keeps

pub consume_request_for_operation-Keeps : (id : Text) → Keeps (consume_request_for_operation id)
unfolding consume_request_for_operation read_update_request
consume_request_for_operation-Keeps id =
    bind-Keeps read_update_request (consume_read id) (read_with-Keeps _) (consume_read-Keeps id)

pub restart_old-Keeps :
    (cfg : Config) (was_active changed : Bool) (v : Text)
    → Keeps (restart_old cfg was_active changed v)
unfolding restart_old
restart_old-Keeps cfg true changed v =
    check-Keeps start_service (return false) (wait_for_healthy cfg v) start_service-Keeps
      (return-Keeps false) (wait_for_healthy-Keeps cfg v)
restart_old-Keeps cfg false true v = portal_version-Keeps cfg v
restart_old-Keeps cfg false false v = return-Keeps true
