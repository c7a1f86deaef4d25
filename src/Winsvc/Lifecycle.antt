-- ===== src/Winsvc/Lifecycle.antt =====
-- internal/winsvc/service_windows.go: `serviceMain` and `serviceHandler`, which run in two threads, and
-- what passes between them. A thread is where it stands; a step does what stands there.
pub mod Order
pub mod Ending
use limiz.Base.{
  ◌≡◌, ℕ, List, [], ◌∷◌, Bool, true, false, Option, none, some, if◌then◌else◌, ◌==◌, ◌||◌, ◌&&◌,
}

abbrev pub service_control_stop : ℕ
service_control_stop = 1

abbrev pub stopped : ℕ
stopped = 1

abbrev pub start_pending : ℕ
start_pending = 2

abbrev pub stop_pending : ℕ
stop_pending = 3

abbrev pub running : ℕ
running = 4

pub record ServiceStatus : Type 0 where
  pub current_state : ℕ
  pub controls_accepted : ℕ
  pub check_point : ℕ
  pub wait_hint : ℕ

-- the status that `setServiceStatus` makes
unfoldable pub service_status : ℕ → ℕ → ServiceStatus
service_status state accepts =
    let pending = state == start_pending || state == stop_pending in
    record {
      current_state = state;
      controls_accepted = accepts;
      check_point = if pending then 1 else 0;
      wait_hint = if pending then 10000 else 0;
    }

-- what `serviceMain` does next
pub data MainAt : Type 0 where
  registering : MainAt
  reporting_start : MainAt
  reporting_running : MainAt
  spawning : MainAt
  waiting : MainAt
  reporting_stopped : MainAt
  returned : MainAt
  refused : MainAt

-- what `serviceHandler` does next
pub data HandlerAt : Type 0 where
  idle : HandlerAt
  reporting_stop : HandlerAt
  logging : HandlerAt
  closing_stop : HandlerAt
  sleeping : HandlerAt
  closing_stopped : HandlerAt

pub data Control : Type 0 where
  stop : Control
  interrogate : Control
  other : Control

pub record Service : Type 0 where
  pub main_at : MainAt
  pub handler_at : HandlerAt
  -- the statuses that were set, the last first
  pub statuses : List ServiceStatus
  -- `runFunc` has been started
  pub started : Bool
  pub stop_ch_closed : Bool
  pub stopped_ch_closed : Bool
  -- a channel was closed twice
  pub panicked : Bool

-- what `RunService` leaves to `serviceMain`
abbrev pub run_service : Service
run_service = record {
  main_at = registering;
  handler_at = idle;
  statuses = [];
  started = false;
  stop_ch_closed = false;
  stopped_ch_closed = false;
  panicked = false;
}

unfoldable pub set_service_status : ℕ → ℕ → Service → Service
unfolding service_status
set_service_status state accepts s = record s {
  statuses = service_status state accepts ∷ s.statuses;
}

unfoldable pub main_at_step : Bool → MainAt → Service → Service
unfolding set_service_status
main_at_step registered registering s = record s {
  main_at = if registered then reporting_start else refused;
}
main_at_step registered reporting_start s = record (set_service_status start_pending 0 s) {
  main_at = reporting_running;
}
main_at_step registered reporting_running s =
    record (set_service_status running service_control_stop s) { main_at = spawning }
main_at_step registered spawning s = record s { main_at = waiting; started = true }
main_at_step registered waiting s = record s {
  main_at = if s.stopped_ch_closed then reporting_stopped else waiting;
}
main_at_step registered reporting_stopped s = record (set_service_status stopped 0 s) {
  main_at = returned;
}
main_at_step registered returned s = s
main_at_step registered refused s = s

-- a step of `serviceMain`; the argument is whether the handler can be registered
unfoldable pub service_main : Bool → Service → Service
unfolding main_at_step
service_main registered s = main_at_step registered s.main_at s

unfoldable pub handler_at_step : HandlerAt → Service → Service
unfolding set_service_status
handler_at_step idle s = s
handler_at_step reporting_stop s = record (set_service_status stop_pending 0 s) {
  handler_at = logging;
}
handler_at_step logging s = record s { handler_at = closing_stop }
handler_at_step closing_stop s = record s {
  handler_at = sleeping;
  panicked = s.panicked || s.stop_ch_closed;
  stop_ch_closed = true;
}
handler_at_step sleeping s = record s { handler_at = closing_stopped }
handler_at_step closing_stopped s = record s {
  handler_at = idle;
  panicked = s.panicked || s.stopped_ch_closed;
  stopped_ch_closed = true;
}

-- a step of the call of `serviceHandler` that is under way
unfoldable pub handler_step : Service → Service
unfolding handler_at_step
handler_step s = handler_at_step s.handler_at s

-- the call of `serviceHandler`
unfoldable pub service_handler : Control → Service → Service
service_handler stop s = record s { handler_at = reporting_stop }
service_handler interrogate s = s
service_handler other s = s

-- the last status accepts a stop
unfoldable pub accepts_stop : List ServiceStatus → Bool
accepts_stop [] = false
accepts_stop (status ∷ statuses) = status.controls_accepted == service_control_stop

-- Windows calls the handler once at a time, and with a stop only while the service accepts it.
pub data Comes : Service → Control → Type 0 where
  stop_comes : (s : Service) → s.handler_at ≡ idle → accepts_stop s.statuses ≡ true → Comes s stop
  interrogate_comes : (s : Service) → s.handler_at ≡ idle → Comes s interrogate
  other_comes : (s : Service) → s.handler_at ≡ idle → Comes s other

infix 40 ◌⟶◌ ◌⟶*◌
pub data ◌⟶◌ : Service → Service → Type 0 where
  main_acts : (s : Service) (registered : Bool) → s ⟶ service_main registered s
  handler_acts : (s : Service) → s ⟶ handler_step s
  control_comes : (s : Service) (c : Control) → Comes s c → s ⟶ service_handler c s

pub data ◌⟶*◌ : Service → Service → Type 0 where
  here : {s : Service} → s ⟶* s
  step : {s t u : Service} → s ⟶ t → t ⟶* u → s ⟶* u
