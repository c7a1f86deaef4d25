-- ===== src/Winsvc.antt =====
-- internal/winsvc/service_windows.go: the Windows service. What a call of the system does is a parameter;
-- an operation is a function of the state of the system, and returns with its result the handles that it
-- opened, used and closed, in order.
pub mod Manager
pub mod EventLog
pub mod Commands
pub mod Lifecycle
pub mod Handles
pub mod Waiting
unfoldable pub use limiz.Effects.{◌>>=◌, ◌>>◌, ret}
use limiz.Base.{
  ℕ, zero, suc, ◌+◌, Text, List, [], ◌∷◌, ◌++◌, Bool, true, false, Option, none, some,
  if◌then◌else◌, ◌==◌, ◌||◌,
}

-- The calls of advapi32.dll, and the clock in milliseconds. A handle is 0 where the call fails; a text is
-- none where the pointer is nil.
pub record System (W : Type 0) : Type 0 where
  pub open_manager : W → W × ℕ
  pub open_service : Option Text → ℕ → W → W × ℕ
  -- name, display name and command line
  pub create_service : Option Text → Option Text → Option Text → ℕ → W → W × ℕ
  -- command line and display name
  pub change_config : Option Text → Option Text → ℕ → W → W × Bool
  pub change_description : Option Text → ℕ → W → W × Unit {0}
  pub control_stop : ℕ → W → W × Bool
  -- the current state, 0 where the call fails
  pub query_status : ℕ → W → W × ℕ
  pub delete_service : ℕ → W → W × Bool
  pub start_service : ℕ → W → W × Bool
  pub close_handle : ℕ → W → W
  pub register_source : Text → W → W × ℕ
  -- type and lines
  pub report_event : ℕ → List Text → ℕ → W → W × Unit {0}
  pub deregister_source : ℕ → W → W
  pub now : W → ℕ
  pub sleep : ℕ → W → W

pub data Event : Type 0 where
  opened : ℕ → Event
  used : ℕ → Event
  closed : ℕ → Event

-- the state, what happened to handles, and the result
abbrev pub Op : Type 0 → Type 0 → Type 0
Op W A = W → W × List Event × A

-- a call with a handle
unfoldable pub call : {W A : Type 0} → (ℕ → W → W × A) → ℕ → Op W A
call f h w = let (w', a) = f h w in (w', used h ∷ [], a)

-- a handle passed to the call that follows
unfoldable pub uses : {W : Type 0} → ℕ → Op W (Unit {0})
uses h w = (w, used h ∷ [], tt)

-- a handle, if it is one
unfoldable pub gained : ℕ → List Event
gained zero = []
gained (suc h) = opened (suc h) ∷ []

-- a call that returns a handle
unfoldable pub acquire : {W : Type 0} → (W → W × ℕ) → Op W ℕ
acquire f w = let (w', h) = f w in (w', gained h, h)

unfoldable pub close : {W : Type 0} → (ℕ → W → W) → ℕ → Op W (Unit {0})
close free h w = (free h w, closed h ∷ [], tt)

-- `defer free(h)` in front of the rest of a function
unfoldable pub deferred : {W A : Type 0} → (ℕ → W → W) → ℕ → Op W A → Op W A
deferred free h m = do r ← m; close free h; ret r

-- the return if a handle is 0, and the deferred close
unfoldable pub holding : {W A : Type 0} → (ℕ → W → W) → A → (ℕ → Op W A) → ℕ → Op W A
holding free failed body zero = ret failed
holding free failed body (suc h) = deferred free (suc h) (body (suc h))

has_nul : Text → Bool
has_nul [] = false
has_nul (c ∷ s) = (c == 0) || has_nul s

-- `syscall.UTF16PtrFromString`, nil for a text with a NUL
unfoldable pub utf16_ptr : Text → Option Text
unfolding has_nul
utf16_ptr s = if has_nul s then none else some s
