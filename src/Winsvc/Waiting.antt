-- ===== src/Winsvc/Waiting.antt =====
-- internal/winsvc/service_windows.go: the wait of `Uninstall` for the service to stop.
use limiz.Base.{
  ◌≡◌, refl, ℕ, zero, suc, ◌+◌, ◌*◌, ◌≤◌, Text, Bool, Option, some, true, false, arith,
}
use limiz.Winsvc.{System, Op, ◌>>=◌, ◌>>◌, ret, call, acquire, deferred, holding, uses, utf16_ptr}
use limiz.Winsvc.Manager.{
  wait_loop, wait_stopped, uninstall, with_service, look_up, remove, SvcError, open_svc,
  open_sc_manager,
}

-- sleeping takes the time that it is asked for, and a query does not turn the clock back
pub record IsClocked {W : Type 0} (sys : System W) : Type 0 where
  pub sleeps : (n : ℕ) (w : W) → sys.now w + n ≤ sys.now (sys.sleep n w)
  pub passes : (svc : ℕ) (w : W) → sys.now w ≤ sys.now (sys.query_status svc w).0

-- the result of a run, from whatever state
unfoldable Yields : {W A : Type 0} → (A → Type 0) → Op W A → Type 0
Yields {W} P m = (w : W) → P (m w).2

module _ {W A : Type 0} (P : A → Type 0) where
  bind-Yields :
      {B : Type 0} (m : Op W B) (f : B → Op W A) → ((b : B) → Yields P (f b)) → Yields P (m >>= f)
  unfolding Yields ◌>>=◌
  bind-Yields m f h w = h (m w).2 (m w).0

  holding-Yields :
      (free : ℕ → W → W) (failed : A) (body : ℕ → Op W A)
      → P failed
      → ((h : ℕ) → Yields P (body h))
      → (h : ℕ) → Yields P (holding free failed body h)
  unfolding Yields holding deferred ◌>>=◌ ◌>>◌ ret
  holding-Yields free failed body hf hb zero w = hf
  holding-Yields free failed body hf hb (suc h) w = hb (suc h) w

  with_service-Yields :
      (sys : System W) (name : Text) (failed : SvcError → A) (body : ℕ → Op W A)
      → ((e : SvcError) → P (failed e))
      → ((h : ℕ) → Yields P (body h))
      → Yields P (with_service sys name failed body)
  unfolding with_service look_up ◌>>◌
  with_service-Yields sys name failed body hf hb = bind-Yields (acquire sys.open_manager) _ (
      holding-Yields sys.close_handle (failed open_sc_manager) _ (hf open_sc_manager) (λ scm.
        bind-Yields (uses scm) _ (λ _.
          bind-Yields (acquire (sys.open_service (utf16_ptr name) scm)) _
            (holding-Yields sys.close_handle (failed open_svc) body (hf open_svc) hb))))

IsSome : {A : Type 0} → Option A → Type 0
IsSome {A} r = (a : A) × (r ≡ some a)

module _ {W : Type 0} (sys : System W) (clocked : IsClocked sys) where
  -- a round for each half second up to the deadline, and one that finds it reached
  wait_loop-ends :
      (n deadline svc : ℕ) (w : W)
      → deadline ≤ sys.now w + 500 * n
      → (wait_loop sys (suc n) deadline svc w).2 ≡ true
  unfolding wait_loop
  wait_loop-ends zero deadline svc w h = ground arith
  wait_loop-ends (suc n) deadline svc w h =
      let w1 = sys.sleep 500 w in
      let w2 = (sys.query_status svc w1).0 in
      ground (
        arith,
        clocked.sleeps 500 w,
        clocked.passes svc w1,
        wait_loop-ends n deadline svc w2
            (omega (arith, h, clocked.sleeps 500 w, clocked.passes svc w1)),
      )

  wait_stopped-ends : (n svc : ℕ) (w : W) → 30 ≤ n → (wait_stopped sys (suc n) svc w).2 ≡ true
  unfolding wait_stopped
  wait_stopped-ends n svc w h = wait_loop-ends n (sys.now w + 15000) svc w (omega arith)

  remove-Yields : (svc : ℕ) (ended : Bool) → ended ≡ true → Yields IsSome (remove sys svc ended)
  unfolding remove Yields ◌>>=◌ ret IsSome
  remove-Yields svc false h w = ground arith
  remove-Yields svc true h w = (_, refl)

  -- `Uninstall` returns: 31 rounds of its wait are enough, whenever the service stops, and if it never does.
  pub uninstall-ends :
      (fuel : ℕ) (name : Text) (w : W)
      → 31 ≤ fuel
      → (r : Option SvcError) × ((uninstall sys fuel name w).2 ≡ some r)
  unfolding uninstall Yields IsSome ◌>>=◌
  uninstall-ends zero name w h = absurd (omega (arith, h))
  uninstall-ends (suc n) name w h =
      with_service-Yields IsSome sys name (λ e. some (some e)) _ (λ e. (some e, refl))
        (λ svc.
          bind-Yields IsSome (call sys.control_stop svc)
            (λ sent. wait_stopped sys (suc n) svc >>= remove sys svc)
            (λ sent w'.
              remove-Yields svc (wait_stopped sys (suc n) svc w').2
                (wait_stopped-ends n svc w' (omega (arith, h)))
                (wait_stopped sys (suc n) svc w').0))
        w
