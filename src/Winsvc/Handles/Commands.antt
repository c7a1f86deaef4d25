-- ===== src/Winsvc/Handles/Commands.antt =====
-- internal/winsvc/service_windows.go: the handles of `HandleServiceCommands` and `WriteEventLogLines`.
use limiz.Base.{◌≡◌, ℕ, suc, Text, List, [], ◌∷◌, Option, none, some}
use limiz.Strings.Case.{to_lower}
use limiz.Winsvc.{System, utf16_ptr}
use limiz.Winsvc.EventLog.{report, report_from, write_event_log_lines, pointers}
use limiz.Winsvc.Commands.{
  Command, install_cmd, uninstall_cmd, start_cmd, stop_cmd, status_cmd, unhandled, handled,
  svc_name, svc_description, run, command, switch, handle_service_commands,
}
use limiz.Winsvc.Handles.{
  settled, settle, has-top, Turns, ret-Turns, call-Turns, bind-Turns, acquire-holding-Turns,
}
use limiz.Winsvc.Handles.Operations.{install-Turns, uninstall-Turns, start-Turns, stop-Turns}

module _ {W : Type 0} (sys : System W) where
  report-Turns :
      (event_type : ℕ) (ptrs : List Text) (h : ℕ) (hs : List ℕ)
      → Turns (h ∷ hs) (h ∷ hs) (report sys event_type ptrs h)
  unfolding report
  report-Turns event_type [] h hs = ret-Turns W (h ∷ hs) tt
  report-Turns event_type (p ∷ ptrs) h hs =
      call-Turns (h ∷ hs) (sys.report_event event_type (p ∷ ptrs)) h (has-top h hs)

  report_from-Turns :
      (event_type : ℕ) (lines : List Text) (source : Option Text) (hs : List ℕ)
      → Turns hs hs (report_from sys event_type lines source)
  unfolding report_from
  report_from-Turns event_type lines none hs = ret-Turns W hs tt
  report_from-Turns event_type lines (some source) hs =
      acquire-holding-Turns hs sys.deregister_source (sys.register_source source) tt
        (report sys event_type (pointers lines))
        (λ h. report-Turns event_type (pointers lines) (suc h) hs)

  write_event_log_lines-Turns :
      (source : Text) (lines : List Text) (event_type : ℕ) (hs : List ℕ)
      → Turns hs hs (write_event_log_lines sys source lines event_type)
  unfolding write_event_log_lines
  write_event_log_lines-Turns source [] event_type hs = ret-Turns W hs tt
  write_event_log_lines-Turns source (line ∷ lines) event_type hs =
      report_from-Turns event_type (line ∷ lines) (utf16_ptr source) hs

run-Turns :
    {W : Type 0} (sys : System W) (fuel : ℕ) (exe_path config_path : Text) (cmd : Command)
    (hs : List ℕ)
    → Turns hs hs (run sys fuel exe_path config_path cmd)
unfolding run
run-Turns {W} sys fuel exe_path [] install_cmd hs = ret-Turns W hs (some handled)
run-Turns {W} sys fuel exe_path (c ∷ config_path) install_cmd hs =
    bind-Turns hs hs hs _ _
      (install-Turns sys svc_name svc_name svc_description exe_path (c ∷ config_path) hs)
      (λ err. ret-Turns W hs _)
run-Turns {W} sys fuel exe_path config_path uninstall_cmd hs =
    bind-Turns hs hs hs _ _ (uninstall-Turns sys fuel svc_name hs) (λ err. ret-Turns W hs _)
run-Turns {W} sys fuel exe_path config_path start_cmd hs =
    bind-Turns hs hs hs _ _ (start-Turns sys svc_name hs) (λ err. ret-Turns W hs _)
run-Turns {W} sys fuel exe_path config_path stop_cmd hs =
    bind-Turns hs hs hs _ _ (stop-Turns sys svc_name hs) (λ err. ret-Turns W hs _)
run-Turns {W} sys fuel exe_path config_path status_cmd hs = ret-Turns W hs (some handled)

switch-Turns :
    {W : Type 0} (sys : System W) (fuel : ℕ) (exe_path config_path : Text) (cmd : Option Command)
    (hs : List ℕ)
    → Turns hs hs (switch sys fuel exe_path config_path cmd)
unfolding switch
switch-Turns {W} sys fuel exe_path config_path none hs = ret-Turns W hs (some unhandled)
switch-Turns sys fuel exe_path config_path (some cmd) hs =
    run-Turns sys fuel exe_path config_path cmd hs

handle_service_commands-Turns :
    {W : Type 0} (sys : System W) (fuel : ℕ) (exe : Option Text) (args : List Text)
    (config_path : Text) (hs : List ℕ)
    → Turns hs hs (handle_service_commands sys fuel exe args config_path)
unfolding handle_service_commands
handle_service_commands-Turns {W} sys fuel exe [] config_path hs = ret-Turns W hs (some unhandled)
handle_service_commands-Turns {W} sys fuel none (arg ∷ args) config_path hs =
    ret-Turns W hs (some handled)
handle_service_commands-Turns {W} sys fuel (some exe_path) (arg ∷ args) config_path hs =
    switch-Turns sys fuel exe_path config_path (command (to_lower arg)) hs

-- Whatever the calls of the system return, a command uses and closes a handle only while it is open,
-- closes the last one first, and leaves none open when it ends.
pub handle_service_commands-settled :
    {W : Type 0} (sys : System W) (fuel : ℕ) (exe : Option Text) (args : List Text)
    (config_path : Text) (w : W)
    → settle [] (handle_service_commands sys fuel exe args config_path w).1 ≡ some []
handle_service_commands-settled sys fuel exe args config_path w =
    settled (handle_service_commands sys fuel exe args config_path)
      (handle_service_commands-Turns sys fuel exe args config_path []) w

-- The same of `WriteEventLogLines`.
pub write_event_log_lines-settled :
    {W : Type 0} (sys : System W) (source : Text) (lines : List Text) (event_type : ℕ) (w : W)
    → settle [] (write_event_log_lines sys source lines event_type w).1 ≡ some []
write_event_log_lines-settled sys source lines event_type w =
    settled (write_event_log_lines sys source lines event_type)
      (write_event_log_lines-Turns sys source lines event_type []) w
