-- ===== src/Winsvc/Lifecycle/Ending.antt =====
-- internal/winsvc/service_windows.go: that the service ends after a stop.
use limiz.Base.{◌≡◌, ◌≢◌, refl, List, [], ◌∷◌, Bool, true, false}
use limiz.Winsvc.Lifecycle.{
  Service, returned, idle, run_service, set_service_status, main_at_step, service_main,
  handler_at_step, handler_step, main_acts, handler_acts, ◌⟶*◌, here, step,
}
use limiz.Winsvc.Lifecycle.Order.{
  up_spawning, up_waiting, Fits, new_fits, refused_fits, starting_fits, accepting_fits, live_fits,
  asked_fits, logging_fits, closing_fits, sleeping_fits, done_fits, over_fits, leaving_fits,
  stopped_fits, steps-Fits,
}

-- the steps of the handler from where it stands, step those of `serviceMain`
after : List Bool → Service → Service
after [] s = s
after (true ∷ bs) s = after bs (service_main true s)
after (false ∷ bs) s = after bs (handler_step s)

after-steps : (bs : List Bool) (s : Service) → s ⟶* after bs s
unfolding after
after-steps [] s = here
after-steps (true ∷ bs) s = step (main_acts s true) (after-steps bs (service_main true s))
after-steps (false ∷ bs) s = step (handler_acts s) (after-steps bs (handler_step s))

-- enough steps of each for any state
abbrev schedule : List Bool
schedule = false ∷ false ∷ false ∷ false ∷ false ∷ true ∷ true ∷ true ∷ []

Fits-ends : {s : Service} → Fits s → s.handler_at ≢ idle → (after schedule s).main_at ≡ returned
unfolding after service_main main_at_step handler_step handler_at_step set_service_status
Fits-ends new_fits h = absurd (h refl)
Fits-ends refused_fits h = absurd (h refl)
Fits-ends starting_fits h = absurd (h refl)
Fits-ends accepting_fits h = absurd (h refl)
Fits-ends (live_fits u) h = absurd (h refl)
Fits-ends (asked_fits up_spawning) h = refl
Fits-ends (asked_fits up_waiting) h = refl
Fits-ends (logging_fits up_spawning) h = refl
Fits-ends (logging_fits up_waiting) h = refl
Fits-ends (closing_fits up_spawning) h = refl
Fits-ends (closing_fits up_waiting) h = refl
Fits-ends (sleeping_fits up_spawning) h = refl
Fits-ends (sleeping_fits up_waiting) h = refl
Fits-ends (done_fits up_spawning) h = refl
Fits-ends (done_fits up_waiting) h = refl
Fits-ends (over_fits u) h = absurd (h refl)
Fits-ends leaving_fits h = absurd (h refl)
Fits-ends stopped_fits h = absurd (h refl)

-- A stop that has come can always be carried through: from every state in which the handler is at work, the
-- threads have steps after which `serviceMain` has returned.
pub run_service-stops :
    {s : Service}
    → run_service ⟶* s
    → s.handler_at ≢ idle
    → (t : Service) × (s ⟶* t) × (t.main_at ≡ returned)
run_service-stops {s} ps h =
    (after schedule s, after-steps schedule s, Fits-ends (steps-Fits ps new_fits) h)
