-- ===== src/Winsvc/Lifecycle/Order.antt =====
-- internal/winsvc/service_windows.go: where the two threads of the service can stand together, and the
-- order of the statuses that they set.
use limiz.Base.{◌≡◌, ◌≢◌, refl, ℕ, List, [], ◌∷◌, map, drop, Bool, true, false, arith}
use limiz.Winsvc.Lifecycle.{
  Service, ServiceStatus, service_status, MainAt, registering, reporting_start, reporting_running,
  spawning, waiting, reporting_stopped, returned, refused, HandlerAt, idle, reporting_stop, logging,
  closing_stop, sleeping, closing_stopped, stop, interrogate, other, start_pending, running,
  stop_pending, stopped, service_control_stop, run_service, set_service_status, main_at_step,
  service_main, handler_at_step, handler_step, service_handler, accepts_stop, stop_comes,
  interrogate_comes, other_comes, ◌⟶◌, main_acts, handler_acts, control_comes, ◌⟶*◌, here, step,
}

abbrev pub started_list : List ServiceStatus
started_list = service_status start_pending 0 ∷ []

abbrev pub running_list : List ServiceStatus
running_list = service_status running service_control_stop ∷ started_list

abbrev pub stopping_list : List ServiceStatus
stopping_list = service_status stop_pending 0 ∷ running_list

abbrev pub stopped_list : List ServiceStatus
stopped_list = service_status stopped 0 ∷ stopping_list

-- where `serviceMain` has reported that the service runs, and whether it has started `runFunc`
pub data Up : MainAt → Bool → Type 0 where
  up_spawning : Up spawning false
  up_waiting : Up waiting true

abbrev pub service : MainAt → HandlerAt → List ServiceStatus → Bool → Bool → Bool → Service
service m h statuses started stop_closed stopped_closed = record {
  main_at = m;
  handler_at = h;
  statuses = statuses;
  started = started;
  stop_ch_closed = stop_closed;
  stopped_ch_closed = stopped_closed;
  panicked = false;
}

pub data Fits : Service → Type 0 where
  new_fits : Fits (service registering idle [] false false false)
  refused_fits : Fits (service refused idle [] false false false)
  starting_fits : Fits (service reporting_start idle [] false false false)
  accepting_fits : Fits (service reporting_running idle started_list false false false)
  live_fits : {m : MainAt} {b : Bool} → Up m b → Fits (service m idle running_list b false false)
  asked_fits :
      {m : MainAt} {b : Bool} → Up m b → Fits (service m reporting_stop running_list b false false)
  logging_fits :
      {m : MainAt} {b : Bool} → Up m b → Fits (service m logging stopping_list b false false)
  closing_fits :
      {m : MainAt} {b : Bool} → Up m b → Fits (service m closing_stop stopping_list b false false)
  sleeping_fits :
      {m : MainAt} {b : Bool} → Up m b → Fits (service m sleeping stopping_list b true false)
  done_fits :
      {m : MainAt} {b : Bool} → Up m b → Fits (service m closing_stopped stopping_list b true false)
  over_fits : {m : MainAt} {b : Bool} → Up m b → Fits (service m idle stopping_list b true true)
  leaving_fits : Fits (service reporting_stopped idle stopping_list true true true)
  stopped_fits : Fits (service returned idle stopped_list true true true)

service_main-Fits : (registered : Bool) {s : Service} → Fits s → Fits (service_main registered s)
unfolding service_main main_at_step set_service_status
service_main-Fits true new_fits = starting_fits
service_main-Fits false new_fits = refused_fits
service_main-Fits registered refused_fits = refused_fits
service_main-Fits registered starting_fits = accepting_fits
service_main-Fits registered accepting_fits = live_fits up_spawning
service_main-Fits registered (live_fits up_spawning) = live_fits up_waiting
service_main-Fits registered (live_fits up_waiting) = live_fits up_waiting
service_main-Fits registered (asked_fits up_spawning) = asked_fits up_waiting
service_main-Fits registered (asked_fits up_waiting) = asked_fits up_waiting
service_main-Fits registered (logging_fits up_spawning) = logging_fits up_waiting
service_main-Fits registered (logging_fits up_waiting) = logging_fits up_waiting
service_main-Fits registered (closing_fits up_spawning) = closing_fits up_waiting
service_main-Fits registered (closing_fits up_waiting) = closing_fits up_waiting
service_main-Fits registered (sleeping_fits up_spawning) = sleeping_fits up_waiting
service_main-Fits registered (sleeping_fits up_waiting) = sleeping_fits up_waiting
service_main-Fits registered (done_fits up_spawning) = done_fits up_waiting
service_main-Fits registered (done_fits up_waiting) = done_fits up_waiting
service_main-Fits registered (over_fits up_spawning) = over_fits up_waiting
service_main-Fits registered (over_fits up_waiting) = leaving_fits
service_main-Fits registered leaving_fits = stopped_fits
service_main-Fits registered stopped_fits = stopped_fits

handler_step-Fits : {s : Service} → Fits s → Fits (handler_step s)
unfolding handler_step handler_at_step set_service_status
handler_step-Fits new_fits = new_fits
handler_step-Fits refused_fits = refused_fits
handler_step-Fits starting_fits = starting_fits
handler_step-Fits accepting_fits = accepting_fits
handler_step-Fits (live_fits u) = live_fits u
handler_step-Fits (asked_fits u) = logging_fits u
handler_step-Fits (logging_fits u) = closing_fits u
handler_step-Fits (closing_fits u) = sleeping_fits u
handler_step-Fits (sleeping_fits u) = done_fits u
handler_step-Fits (done_fits u) = over_fits u
handler_step-Fits (over_fits u) = over_fits u
handler_step-Fits leaving_fits = leaving_fits
handler_step-Fits stopped_fits = stopped_fits

-- a stop is accepted only where the service has reported that it runs, and no stop has come
stop-Fits :
    {s : Service}
    → s.handler_at ≡ idle
    → accepts_stop s.statuses ≡ true
    → Fits s
    → Fits (record s { handler_at = reporting_stop })
unfolding accepts_stop service_status
stop-Fits hi ha new_fits = ground arith
stop-Fits hi ha refused_fits = ground arith
stop-Fits hi ha starting_fits = ground arith
stop-Fits hi ha accepting_fits = ground arith
stop-Fits hi ha (live_fits u) = asked_fits u
stop-Fits hi ha (asked_fits u) = ground arith
stop-Fits hi ha (logging_fits u) = ground arith
stop-Fits hi ha (closing_fits u) = ground arith
stop-Fits hi ha (sleeping_fits u) = ground arith
stop-Fits hi ha (done_fits u) = ground arith
stop-Fits hi ha (over_fits u) = ground arith
stop-Fits hi ha leaving_fits = ground arith
stop-Fits hi ha stopped_fits = ground arith

step-Fits : {s t : Service} → s ⟶ t → Fits s → Fits t
unfolding service_handler
step-Fits (main_acts s registered) f = service_main-Fits registered f
step-Fits (handler_acts s) f = handler_step-Fits f
step-Fits (control_comes s stop (stop_comes _ hi ha)) f = stop-Fits hi ha f
step-Fits (control_comes s interrogate (interrogate_comes _ hi)) f = f
step-Fits (control_comes s other (other_comes _ hi)) f = f

pub steps-Fits : {s t : Service} → s ⟶* t → Fits s → Fits t
steps-Fits here f = f
steps-Fits (step p ps) f = steps-Fits ps (step-Fits p f)

abbrev pub order : List ℕ
order = stopped ∷ stop_pending ∷ running ∷ start_pending ∷ []

-- the states of the statuses, the last first
abbrev pub states : Service → List ℕ
states s = map (λ status. status.current_state) s.statuses

Fits-in_order : {s : Service} → Fits s → (k : ℕ) × (states s ≡ drop k order)
unfolding service_status
Fits-in_order new_fits = (4, refl)
Fits-in_order refused_fits = (4, refl)
Fits-in_order starting_fits = (4, refl)
Fits-in_order accepting_fits = (3, refl)
Fits-in_order (live_fits u) = (2, refl)
Fits-in_order (asked_fits u) = (2, refl)
Fits-in_order (logging_fits u) = (1, refl)
Fits-in_order (closing_fits u) = (1, refl)
Fits-in_order (sleeping_fits u) = (1, refl)
Fits-in_order (done_fits u) = (1, refl)
Fits-in_order (over_fits u) = (1, refl)
Fits-in_order leaving_fits = (1, refl)
Fits-in_order stopped_fits = (0, refl)

Fits-no_panic : {s : Service} → Fits s → s.panicked ≡ false
Fits-no_panic new_fits = refl
Fits-no_panic refused_fits = refl
Fits-no_panic starting_fits = refl
Fits-no_panic accepting_fits = refl
Fits-no_panic (live_fits u) = refl
Fits-no_panic (asked_fits u) = refl
Fits-no_panic (logging_fits u) = refl
Fits-no_panic (closing_fits u) = refl
Fits-no_panic (sleeping_fits u) = refl
Fits-no_panic (done_fits u) = refl
Fits-no_panic (over_fits u) = refl
Fits-no_panic leaving_fits = refl
Fits-no_panic stopped_fits = refl

Up-ne-returned : {m : MainAt} {b : Bool} → Up m b → m ≢ returned
Up-ne-returned up_spawning h = ground arith
Up-ne-returned up_waiting h = ground arith

Fits-told :
    {s : Service} → Fits s → s.main_at ≡ returned → (s.started ≡ true) × (s.stop_ch_closed ≡ true)
Fits-told (live_fits u) h = absurd (Up-ne-returned u h)
Fits-told (asked_fits u) h = absurd (Up-ne-returned u h)
Fits-told (logging_fits u) h = absurd (Up-ne-returned u h)
Fits-told (closing_fits u) h = absurd (Up-ne-returned u h)
Fits-told (sleeping_fits u) h = absurd (Up-ne-returned u h)
Fits-told (done_fits u) h = absurd (Up-ne-returned u h)
Fits-told (over_fits u) h = absurd (Up-ne-returned u h)
Fits-told _ h = ground arith

-- However the two threads and the calls of Windows are interleaved, no channel is closed twice; the
-- states that the service reports are the first of START_PENDING, RUNNING, STOP_PENDING and STOPPED, in
-- this order; and once registered, `serviceMain` returns only after `runFunc` was started and told to stop.
pub run_service-orderly :
    {s : Service}
    → run_service ⟶* s
    → (s.panicked ≡ false)
      × ((k : ℕ) × (states s ≡ drop k order))
      × (s.main_at ≡ returned → (s.started ≡ true) × (s.stop_ch_closed ≡ true))
run_service-orderly ps =
    let f = steps-Fits ps new_fits in (Fits-no_panic f, Fits-in_order f, Fits-told f)
