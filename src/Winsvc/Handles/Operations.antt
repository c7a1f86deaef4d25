-- ===== src/Winsvc/Handles/Operations.antt =====
-- internal/winsvc/service_windows.go: the handles of `Install`, `Uninstall`, `Start` and `Stop`.
use limiz.Base.{
  ◌≡◌, refl, ℕ, zero, ◌+◌, suc, Text, List, [], ◌∷◌, ◌++◌, Bool, true, false, none, some, arith,
}
use limiz.Winsvc.{System, Event, used, Op, ◌>>=◌, ◌>>◌, ret, call, uses, close, utf16_ptr}
use limiz.Winsvc.Manager.{
  SvcError, describe, configured, create, register, install, with_service, start, stop, wait_loop,
  wait_stopped, remove, uninstall, look_up, command_line, create_svc, open_svc, open_sc_manager,
  change_service_config,
}
use limiz.Winsvc.Handles.{
  settle, settle_event, has-top, Turns, ret-Turns, call-Turns, uses-Turns, close-Turns, bind-Turns,
  then-Turns, deferred-Turns, acquire-Turns, acquire-holding-Turns,
}

module _ {W : Type 0} (sys : System W) where
  -- a call with the last handle, and what follows it
  call-then :
      {A B : Type 0} (h : ℕ) (hs hs' : List ℕ) (f : ℕ → W → W × A) (k : A → Op W B)
      → ((a : A) → Turns (h ∷ hs) hs' (k a))
      → Turns (h ∷ hs) hs' (call f h >>= k)
  call-then h hs hs' f k hk =
      bind-Turns (h ∷ hs) (h ∷ hs) hs' (call f h) k (call-Turns (h ∷ hs) f h (has-top h hs)) hk

  uses-then :
      {B : Type 0} (h : ℕ) (hs hs' : List ℕ) (k : Op W B)
      → Turns (h ∷ hs) hs' k
      → Turns (h ∷ hs) hs' (uses h >> k)
  uses-then h hs hs' k hk =
      then-Turns (h ∷ hs) (h ∷ hs) hs' (uses h) k (uses-Turns W (h ∷ hs) h (has-top h hs)) hk

  describe-Turns :
      (description : Text) (h : ℕ) (hs : List ℕ)
      → Turns (h ∷ hs) (h ∷ hs) (describe sys description h)
  unfolding describe ◌>>◌
  describe-Turns [] h hs = ret-Turns W (h ∷ hs) none
  describe-Turns (c ∷ description) h hs =
      call-then h hs (h ∷ hs) (sys.change_description (utf16_ptr (c ∷ description))) _
        (λ _. ret-Turns W (h ∷ hs) none)

  configured-Turns :
      (description : Text) (h : ℕ) (hs : List ℕ) (done : Bool)
      → Turns (h ∷ hs) hs (configured sys description h done)
  unfolding configured
  configured-Turns description h hs true =
      deferred-Turns hs sys.close_handle h (describe sys description h)
        (describe-Turns description h hs)
  configured-Turns description h hs false =
      then-Turns (h ∷ hs) hs hs (close sys.close_handle h) (ret (some change_service_config))
        (close-Turns hs sys.close_handle h) (ret-Turns W hs (some change_service_config))

  create-Turns :
      (name display cmd description : Text) (scm : ℕ) (hs : List ℕ)
      → Turns (scm ∷ hs) (scm ∷ hs) (create sys name display cmd description scm)
  unfolding create
  create-Turns name display cmd description scm hs = uses-then scm hs (scm ∷ hs) _ (
      acquire-holding-Turns (scm ∷ hs) sys.close_handle
        (sys.create_service (utf16_ptr name) (utf16_ptr display) (utf16_ptr cmd) scm)
        (some create_svc) (describe sys description)
        (λ svc. describe-Turns description (suc svc) (scm ∷ hs)))

  pub install-Turns :
      (name display description bin_path config_path : Text) (hs : List ℕ)
      → Turns hs hs (install sys name display description bin_path config_path)
  unfolding install register look_up
  install-Turns name display description bin_path config_path hs =
      acquire-holding-Turns hs sys.close_handle sys.open_manager (some open_sc_manager) _ (λ scm.
        uses-then (suc scm) hs (suc scm ∷ hs) _ (
          acquire-Turns (suc scm ∷ hs) sys.close_handle
            (sys.open_service (utf16_ptr name) (suc scm)) _
            (create-Turns name display (command_line bin_path config_path) description (suc scm) hs)
            (λ svc.
              call-then (suc svc) (suc scm ∷ hs) (suc scm ∷ hs) _ _
                (configured-Turns description (suc svc) (suc scm ∷ hs)))))

  with_service-Turns :
      {A : Type 0} (name : Text) (failed : SvcError → A) (body : ℕ → Op W A) (hs : List ℕ)
      → ((svc scm : ℕ) → Turns (svc ∷ scm ∷ hs) (svc ∷ scm ∷ hs) (body svc))
      → Turns hs hs (with_service sys name failed body)
  unfolding with_service look_up
  with_service-Turns name failed body hs hb =
      acquire-holding-Turns hs sys.close_handle sys.open_manager (failed open_sc_manager) _ (λ scm.
        uses-then (suc scm) hs (suc scm ∷ hs) _ (
          acquire-holding-Turns (suc scm ∷ hs) sys.close_handle
            (sys.open_service (utf16_ptr name) (suc scm)) (failed open_svc) body
            (λ svc. hb (suc svc) (suc scm))))

  -- one call and its outcome
  pub start-Turns : (name : Text) (hs : List ℕ) → Turns hs hs (start sys name)
  unfolding start
  start-Turns name hs = with_service-Turns name some _ hs (λ svc scm.
      call-then svc (scm ∷ hs) (svc ∷ scm ∷ hs) sys.start_service _
        (λ ok. ret-Turns W (svc ∷ scm ∷ hs) _))

  pub stop-Turns : (name : Text) (hs : List ℕ) → Turns hs hs (stop sys name)
  unfolding stop
  stop-Turns name hs = with_service-Turns name some _ hs (λ svc scm.
      call-then svc (scm ∷ hs) (svc ∷ scm ∷ hs) sys.control_stop _
        (λ ok. ret-Turns W (svc ∷ scm ∷ hs) _))

  -- a query of the service, and what happened then
  settle-used :
      (h : ℕ) (hs : List ℕ) (es : List Event) → settle (h ∷ hs) (used h ∷ es) ≡ settle (h ∷ hs) es
  unfolding settle settle_event
  settle-used h hs es = rw (has-top h hs, settle, settle_event) refl

  wait_loop-Turns :
      (fuel deadline svc : ℕ) (hs : List ℕ)
      → Turns (svc ∷ hs) (svc ∷ hs) (wait_loop sys fuel deadline svc)
  unfolding wait_loop Turns
  wait_loop-Turns zero deadline svc hs w rest = refl
  wait_loop-Turns (suc fuel) deadline svc hs w rest =
      let (w', status) = sys.query_status svc (sys.sleep 500 w) in
      let es = (wait_loop sys fuel deadline svc w').1 in
      ground (
        arith,
        settle-used svc hs rest,
        settle-used svc hs (es ++ rest),
        wait_loop-Turns fuel deadline svc hs w' rest,
      )

  remove-Turns :
      (svc : ℕ) (hs : List ℕ) (ended : Bool) → Turns (svc ∷ hs) (svc ∷ hs) (remove sys svc ended)
  unfolding remove
  remove-Turns svc hs false = ret-Turns W (svc ∷ hs) none
  remove-Turns svc hs true =
      call-then svc hs (svc ∷ hs) sys.delete_service _ (λ ok. ret-Turns W (svc ∷ hs) _)

  pub uninstall-Turns :
      (fuel : ℕ) (name : Text) (hs : List ℕ) → Turns hs hs (uninstall sys fuel name)
  unfolding uninstall wait_stopped Turns
  uninstall-Turns fuel name hs =
      with_service-Turns name (λ e. some (some e)) _ hs
        (λ svc scm. call-then svc (scm ∷ hs) (svc ∷ scm ∷ hs) sys.control_stop _ (λ sent.
          bind-Turns (svc ∷ scm ∷ hs) (svc ∷ scm ∷ hs) (svc ∷ scm ∷ hs) (wait_stopped sys fuel svc)
            _ (λ w. wait_loop-Turns fuel (sys.now w + 15000) svc (scm ∷ hs) w)
            (remove-Turns svc (scm ∷ hs))))
