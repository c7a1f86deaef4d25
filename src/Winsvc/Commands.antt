-- ===== src/Winsvc/Commands.antt =====
-- internal/winsvc/service_windows.go: `HandleServiceCommands`, without what it prints.
use limiz.Base.{ℕ, Text, List, [], ◌∷◌, Option, none, some, codes, if◌then◌else◌, text_eq}
use limiz.Strings.Case.{to_lower}
use limiz.Winsvc.{System, Op, ◌>>=◌, ret}
use limiz.Winsvc.Manager.{SvcError, install, uninstall, start, stop}

-- `false` and `true`, and the end of the process with code 1
pub data Ran : Type 0 where
  unhandled : Ran
  handled : Ran
  exited : Ran

pub data Command : Type 0 where
  install_cmd : Command
  uninstall_cmd : Command
  start_cmd : Command
  stop_cmd : Command
  status_cmd : Command

-- the cases of the switch
unfoldable pub command : Text → Option Command
command cmd =
    if text_eq cmd (codes "install")
    then some install_cmd
    else if text_eq cmd (codes "uninstall")
    then some uninstall_cmd
    else if text_eq cmd (codes "start")
    then some start_cmd
    else if text_eq cmd (codes "stop")
    then some stop_cmd
    else if text_eq cmd (codes "status")
    then some status_cmd
    else none

abbrev pub svc_name : Text
svc_name = codes "Limiz"

abbrev pub svc_description : Text
svc_description = codes "Prometheus-compatible system metrics exporter with local SQLite storage"

unfoldable pub finish : Option SvcError → Ran
finish none = handled
finish (some e) = exited

-- the result of a command, none if the fuel of the wait has run out
unfoldable pub run : {W : Type 0} → System W → ℕ → Text → Text → Command → Op W (Option Ran)
unfolding finish
run sys fuel exe_path [] install_cmd = ret (some handled)
run sys fuel exe_path (c ∷ config_path) install_cmd = do
  err ← install sys svc_name svc_name svc_description exe_path (c ∷ config_path)
  ret (some (finish err))
run sys fuel exe_path config_path uninstall_cmd = do
  err ← uninstall sys fuel svc_name
  ret (elim err [ none ↦ none | some e ↦ some (finish e) ])
run sys fuel exe_path config_path start_cmd = do err ← start sys svc_name; ret (some (finish err))
run sys fuel exe_path config_path stop_cmd = do err ← stop sys svc_name; ret (some (finish err))
run sys fuel exe_path config_path status_cmd = ret (some handled)

unfoldable pub switch :
    {W : Type 0} → System W → ℕ → Text → Text → Option Command → Op W (Option Ran)
switch sys fuel exe_path config_path none = ret (some unhandled)
switch sys fuel exe_path config_path (some cmd) = run sys fuel exe_path config_path cmd

-- the path of the executable is none where the system does not tell it
unfoldable pub handle_service_commands :
    {W : Type 0} → System W → ℕ → Option Text → List Text → Text → Op W (Option Ran)
unfolding switch command
handle_service_commands sys fuel exe [] config_path = ret (some unhandled)
handle_service_commands sys fuel none (arg ∷ args) config_path = ret (some handled)
handle_service_commands sys fuel (some exe_path) (arg ∷ args) config_path =
    switch sys fuel exe_path config_path (command (to_lower arg))
