-- ===== src/Floats.antt =====
-- What the program uses of Go's float64: an abstract type with the operations of the language and
-- of `strconv` and `fmt`. No law is assumed here; a theorem that needs one names it.
use limiz.Base.{ℕ, Bool, Text}

pub record Floats : Type 1 where
  pub F : Type 0
  -- `strconv.ParseFloat(s, 64)`: the value, and whether `err` is nil
  pub parse_float : Text → F × Bool
  -- the verb `%g`
  pub format_g : F → Text
  -- `float64(n)`
  pub of_nat : ℕ → F
  pub add : F → F → F
  pub sub : F → F → F
  pub mul : F → F → F
  pub div : F → F → F
  -- `a < b`
  pub less : F → F → Bool
  -- `a == b`
  pub eq : F → F → Bool
