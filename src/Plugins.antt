-- ===== src/Plugins.antt =====
-- What the two kinds of plugins share: the host on which a plugin's binary runs, and what a call of
-- `Collect` does to it, as a list of events.
use limiz.Base.{ℕ, suc, ◌+◌, Text, List, [], ◌∷◌, ◌++◌, ℤ, Option, Bool, ◌≡◌, arith}
use limiz.Signing.{Bytes, PluginError}

-- how `cmd.Run()` ended
pub data Outcome : Type 0 where
  success : Outcome
  -- an error, with the context's deadline exceeded
  timed_out : Outcome
  -- any other error
  failure : Outcome

pub record RunResult : Type 0 where
  pub outcome : Outcome
  pub stdout : Text
  pub stderr : Text

-- The operating system: `W` is the state of the world. A run may change it.
pub record Host (W : Type 0) : Type 0 where
  -- `runtime.GOOS == "windows"`
  pub is_windows : Bool
  -- `os.ReadFile`, none where it fails
  pub read_file : W → Text → Option Bytes
  -- `exec.CommandContext(ctx, path, args...).Run()` under a timeout in nanoseconds
  pub run : W → Text → List Text → ℤ → W × RunResult

-- What a call of `Collect` did: each run of a binary, and each line that it logged.
pub data Event : Type 0 where
  rejected : Text → PluginError → Event
  executed : Text → List Text → ℤ → Event
  logged_stderr : Text → Text → Event
  logged_timeout : Text → ℤ → Event
  logged_failure : Text → Event
  logged_empty : Text → Event
  logged_parse_error : Text → Event

-- the runs among the events: path, arguments and timeout
unfoldable pub runs : List Event → List (Text × List Text × ℤ)
runs [] = []
runs (executed path args t ∷ es) = (path, args, t) ∷ runs es
runs (rejected _ _ ∷ es) = runs es
runs (logged_stderr _ _ ∷ es) = runs es
runs (logged_timeout _ _ ∷ es) = runs es
runs (logged_failure _ ∷ es) = runs es
runs (logged_empty _ ∷ es) = runs es
runs (logged_parse_error _ ∷ es) = runs es

-- the number of logged rejections
unfoldable pub rejections : List Event → ℕ
rejections [] = 0
rejections (rejected _ _ ∷ es) = suc (rejections es)
rejections (executed _ _ _ ∷ es) = rejections es
rejections (logged_stderr _ _ ∷ es) = rejections es
rejections (logged_timeout _ _ ∷ es) = rejections es
rejections (logged_failure _ ∷ es) = rejections es
rejections (logged_empty _ ∷ es) = rejections es
rejections (logged_parse_error _ ∷ es) = rejections es

pub rejections-append : (es fs : List Event) → rejections (es ++ fs) ≡ rejections es + rejections fs
unfolding rejections
rejections-append [] fs = omega arith
rejections-append (rejected _ _ ∷ es) fs = omega (arith, rejections-append es fs)
rejections-append (executed _ _ _ ∷ es) fs = rejections-append es fs
rejections-append (logged_stderr _ _ ∷ es) fs = rejections-append es fs
rejections-append (logged_timeout _ _ ∷ es) fs = rejections-append es fs
rejections-append (logged_failure _ ∷ es) fs = rejections-append es fs
rejections-append (logged_empty _ ∷ es) fs = rejections-append es fs
rejections-append (logged_parse_error _ ∷ es) fs = rejections-append es fs
