-- ===== src/Winsvc/Manager.antt =====
-- internal/winsvc/service_windows.go: `Install`, `Uninstall`, `Start` and `Stop`.
use limiz.Base.{
  ℕ, zero, suc, ◌+◌, Text, [], ◌∷◌, ◌++◌, Bool, true, false, Option, none, some, codes,
  if◌then◌else◌, ltb, ◌==◌,
}
use limiz.Winsvc.{
  System, used, Op, ◌>>=◌, ◌>>◌, ret, call, uses, acquire, close, deferred, holding, utf16_ptr,
}

-- which call failed
pub data SvcError : Type 0 where
  open_sc_manager : SvcError
  open_svc : SvcError
  change_service_config : SvcError
  create_svc : SvcError
  delete_svc : SvcError
  start_svc : SvcError
  control_service : SvcError

abbrev pub service_stopped : ℕ
service_stopped = 1

-- `"<bin>" --config "<config>" --run-service`
unfoldable pub command_line : Text → Text → Text
command_line bin_path config_path =
    b'"' ∷ (bin_path ++ (codes "\" --config \"" ++ (config_path ++ codes "\" --run-service")))

-- whether a call succeeded
unfoldable pub outcome : SvcError → Bool → Option SvcError
outcome e ok = if ok then none else some e

module _ {W : Type 0} (sys : System W) where
  -- the tail of `Install`
  unfoldable pub describe : Text → ℕ → Op W (Option SvcError)
  describe [] svc = ret none
  describe (c ∷ description) svc = do
    call (sys.change_description (utf16_ptr (c ∷ description))) svc
    ret none

  -- after `ChangeServiceConfig`: the handle is closed by hand where it failed
  unfoldable pub configured : Text → ℕ → Bool → Op W (Option SvcError)
  configured description svc true = deferred sys.close_handle svc (describe description svc)
  configured description svc false = do close sys.close_handle svc; ret (some change_service_config)

  unfoldable pub create : Text → Text → Text → Text → ℕ → Op W (Option SvcError)
  create name display cmd description scm = do
    uses scm
    svc ← acquire (sys.create_service (utf16_ptr name) (utf16_ptr display) (utf16_ptr cmd) scm)
    holding sys.close_handle (some create_svc) (describe description) svc

  -- a service that is there is changed, otherwise it is created
  unfoldable pub register : Text → Text → Text → Text → ℕ → ℕ → Op W (Option SvcError)
  register name display cmd description scm zero = create name display cmd description scm
  register name display cmd description scm (suc svc) = do
    done ← call (sys.change_config (utf16_ptr cmd) (utf16_ptr display)) (suc svc)
    configured description (suc svc) done

  -- `OpenService`, and what follows
  unfoldable pub look_up : {A : Type 0} → Text → (ℕ → Op W A) → ℕ → Op W A
  look_up name k scm = do uses scm; svc ← acquire (sys.open_service (utf16_ptr name) scm); k svc

  unfoldable pub install : Text → Text → Text → Text → Text → Op W (Option SvcError)
  install name display description bin_path config_path = do
    let cmd = command_line bin_path config_path
    scm ← acquire sys.open_manager
    holding sys.close_handle (some open_sc_manager)
        (λ scm. look_up name (register name display cmd description scm) scm) scm

  -- what the other three start with
  unfoldable pub with_service : {A : Type 0} → Text → (SvcError → A) → (ℕ → Op W A) → Op W A
  with_service name failed body = do
    scm ← acquire sys.open_manager
    holding sys.close_handle (failed open_sc_manager)
        (look_up name (holding sys.close_handle (failed open_svc) body)) scm

  unfoldable pub start : Text → Op W (Option SvcError)
  start name =
      with_service name some (λ svc. do ok ← call sys.start_service svc; ret (outcome start_svc ok))

  unfoldable pub stop : Text → Op W (Option SvcError)
  stop name =
      with_service name some
        (λ svc. do ok ← call sys.control_stop svc; ret (outcome control_service ok))

  -- The loop of `Uninstall`, on fuel: whether it has ended, by its deadline or because the service has
  -- stopped.
  unfoldable pub wait_loop : ℕ → ℕ → ℕ → Op W Bool
  wait_loop zero deadline svc w = (w, [], false)
  wait_loop (suc fuel) deadline svc w =
      let (w', status) = sys.query_status svc (sys.sleep 500 w) in
      let (w'', es, ended) = wait_loop fuel deadline svc w' in
      if ltb (sys.now w) deadline
      then (if status == service_stopped
          then (w', used svc ∷ [], true)
          else (w'', used svc ∷ es, ended))
      else (w, [], true)

  -- 15 seconds
  unfoldable pub wait_stopped : ℕ → ℕ → Op W Bool
  wait_stopped fuel svc w = wait_loop fuel (sys.now w + 15000) svc w

  -- none if the fuel has run out
  unfoldable pub remove : ℕ → Bool → Op W (Option (Option SvcError))
  remove svc false = ret none
  remove svc true = do ok ← call sys.delete_service svc; ret (some (outcome delete_svc ok))

  unfoldable pub uninstall : ℕ → Text → Op W (Option (Option SvcError))
  uninstall fuel name =
      with_service name (λ e. some (some e))
        (λ svc. do
          sent ← call sys.control_stop svc
          ended ← wait_stopped fuel svc
          remove svc ended)
