-- ===== src/Tests/Numbers.antt =====
-- The natural numbers as an instance of the abstract floats: printed in decimal, and read back.
use limiz.Base.{
  ◌==◌, ℕ, ◌+◌, ◌-◌, ◌*◌, ◌/◌, Text, [], ◌∷◌, Bool, true, false, not, ◌&&◌, Option, none, some, ltb,
  ◌≡◌, arith, All, ap,
}
use limiz.Floats.{Floats}
use limiz.Strings.Trim.{is_space}
use limiz.Strings.Fields.{NoSpace}
use limiz.Strings.Affix.{Lacks}
use limiz.Strconv.Decimal.{itoa, parse_nat, parse_nat-itoa, itoa-ne-nil, itoa-All, IsDigit}
use limiz.Collectors.Parser.Reading.{PrintsNumbers}

abbrev with_flag : Option ℕ → ℕ × Bool
with_flag none = (0, false)
with_flag (some n) = (n, true)

abbrev pub naturals : Floats
naturals = record {
  F = ℕ;
  parse_float = λ s. with_flag (parse_nat s);
  format_g = itoa;
  of_nat = λ n. n;
  add = λ a b. a + b;
  sub = λ a b. a - b;
  mul = λ a b. a * b;
  div = λ a b. a / b;
  less = ltb;
  eq = λ a b. a == b;
}

digits-NoSpace : (s : Text) → All IsDigit s → NoSpace s
unfolding is_space
digits-NoSpace [] h = tt
digits-NoSpace (c ∷ s) h = (ground arith, digits-NoSpace s h.1)

digits-Lacks : (s : Text) → All IsDigit s → Lacks b'{' s
digits-Lacks [] h = tt
digits-Lacks (c ∷ s) h = (omega arith, digits-Lacks s h.1)

pub naturals-PrintsNumbers : PrintsNumbers naturals
naturals-PrintsNumbers = record {
  nonempty = itoa-ne-nil;
  solid = λ v. digits-NoSpace (itoa v) (itoa-All v);
  no_brace = λ v. digits-Lacks (itoa v) (itoa-All v);
  read_back = λ v. ap with_flag (parse_nat-itoa v);
}

abbrev is_solid : Text → Bool
is_solid [] = true
is_solid (c ∷ s) = not (is_space c) && is_solid s

-- at a literal the check is an evaluation
pub solid : (s : Text) → is_solid s ≡ true → NoSpace s
solid [] h = tt
solid (c ∷ s) h = (ground arith, solid s (ground arith))
