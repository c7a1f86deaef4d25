-- ===== src/Tests/Winsvc.antt =====
-- internal/winsvc: a machine with one service, and runs on it.
use limiz.Strings.Case.{to_lower}
use limiz.Base.{
  text_eq, ◌≡◌, ◌≢◌, refl, ℕ, ◌+◌, [], ◌∷◌, drop, Bool, true, false, Option, some, codes,
  if◌then◌else◌, ltb, arith,
}
use limiz.Winsvc.{
  ◌>>=◌, acquire, gained, holding, deferred, ◌>>◌, uses, call, ret, close, opened, used, closed,
  System,
}
use limiz.Winsvc.Manager.{
  look_up, register, create, describe, with_service, remove, wait_stopped, wait_loop, command_line,
  install, SvcError, uninstall,
}
use limiz.Winsvc.Commands.{switch, command, run, handle_service_commands}
use limiz.Winsvc.Waiting.{IsClocked, uninstall-ends}
use limiz.Winsvc.Handles.{settle}
use limiz.Winsvc.Handles.Commands.{handle_service_commands-settled}
use limiz.Winsvc.Lifecycle.{
  Service, run_service, service_main, service_handler, stop, stop_comes, main_acts, control_comes,
  ◌⟶*◌, here, step, accepts_stop, idle, returned,
}
use limiz.Winsvc.Lifecycle.Order.{run_service-orderly, states, order}
use limiz.Winsvc.Lifecycle.Ending.{run_service-stops}

record Machine : Type 0 where
  clock : ℕ
  installed : Bool
  state : ℕ

-- the service takes until `clock` 5000 to stop
abbrev machine : System Machine
machine = record {
  open_manager = λ w. (w, 1);
  open_service = λ name scm w. (w, if w.installed then 2 else 0);
  create_service = λ name display cmd scm w. (record w { installed = true }, 3);
  change_config = λ cmd display svc w. (w, true);
  change_description = λ text svc w. (w, tt);
  control_stop = λ svc w. (record w { state = 3 }, true);
  query_status = λ svc w. (w, if ltb w.clock 5000 then w.state else 1);
  delete_service = λ svc w. (record w { installed = false }, true);
  start_service = λ svc w. (record w { state = 4 }, true);
  close_handle = λ h w. w;
  register_source = λ source w. (w, 5);
  report_event = λ event_type lines h w. (w, tt);
  deregister_source = λ h w. w;
  now = λ w. w.clock;
  sleep = λ n w. record w { clock = w.clock + n };
}

abbrev running_machine : Machine
running_machine = record { clock = 0; installed = true; state = 4 }

machine-IsClocked : IsClocked machine
machine-IsClocked = record { sleeps = λ n w. omega arith; passes = λ svc w. omega arith }

uninstall-ends_example :
    (r : Option SvcError) × ((uninstall machine 31 (codes "Limiz") running_machine).2 ≡ some r)
uninstall-ends_example =
    uninstall-ends machine machine-IsClocked 31 (codes "Limiz") running_machine (omega arith)

handle_service_commands-settled_example :
    settle []
      (handle_service_commands machine 31
        (some (codes "limiz.exe"))
        (codes "Uninstall" ∷ [])
        []
        running_machine).1
    ≡ some []
handle_service_commands-settled_example =
    handle_service_commands-settled machine 31 (some (codes "limiz.exe")) (codes "Uninstall" ∷ [])
      [] running_machine

-- the service, up to where it runs
abbrev up : Service
up = service_main true (service_main true (service_main true (service_main true run_service)))

asked : run_service ⟶* service_handler stop up
unfolding service_main accepts_stop
asked = step (main_acts run_service true) (
    step (main_acts (service_main true run_service) true) (
      step (main_acts (service_main true (service_main true run_service)) true) (
        step
          (main_acts (service_main true (service_main true (service_main true run_service))) true)
          (step (control_comes up stop (stop_comes up refl refl)) here))))

run_service-orderly_example :
    ((service_handler stop up).panicked ≡ false)
    × ((k : ℕ) × (states (service_handler stop up) ≡ drop k order))
    × ((service_handler stop up).main_at ≡ returned
        → ((service_handler stop up).started ≡ true)
          × ((service_handler stop up).stop_ch_closed ≡ true))
run_service-orderly_example = run_service-orderly asked

asked-busy : (service_handler stop up).handler_at ≢ idle
unfolding service_handler
asked-busy h = ground arith

run_service-stops_example : (t : Service) × (service_handler stop up ⟶* t) × (t.main_at ≡ returned)
run_service-stops_example = run_service-stops asked asked-busy

-- the service is there until it is removed, after ten rounds
uninstall_run :
    (handle_service_commands machine 31
      (some (codes "limiz.exe"))
      (codes "Uninstall" ∷ [])
      []
      running_machine).0
    ≡ record { clock = 5000; installed = false; state = 3 }
unfolding handle_service_commands switch command text_eq to_lower run uninstall with_service ◌>>=◌
    acquire gained holding deferred look_up ◌>>◌ uses call ret close remove wait_stopped wait_loop
uninstall_run = refl

-- a machine without the service: it is created, and the handles are closed
install_run :
    (install machine
      (codes "Limiz")
      (codes "Limiz")
      (codes "metrics")
      (codes "limiz.exe")
      (codes "c.json")
      (record running_machine { installed = false })).1
    ≡ opened 1 ∷ used 1 ∷ used 1 ∷ opened 3 ∷ used 3 ∷ closed 3 ∷ closed 1 ∷ []
unfolding install ◌>>=◌ acquire gained holding deferred look_up ◌>>◌ uses call ret close register
    create describe
install_run = refl

command_line_run :
    command_line (codes "limiz.exe") (codes "c.json")
    ≡ codes "\"limiz.exe\" --config \"c.json\" --run-service"
unfolding command_line
command_line_run = refl
