-- ===== src/Strconv/Decimal.antt =====
-- Decimal numbers, printed and read.
use limiz.Base.{
  ℕ, zero, suc, ◌+◌, ◌-◌, ◌*◌, ◌/◌, ◌%◌, ◌≤◌, ◌<◌, Text, [], ◌∷◌, ◌++◌, Bool, ◌&&◌, none, some,
  Option, if◌then◌else◌, ltb, leb, ◌≡◌, ◌≢◌, refl, arith, All, All-append, ◌∙◌, ap, Bool-cases, inl,
  inr, ltb→lt,
}
use mathlib.Core.List.{cons-ne-nil, concat-ne-nil}

unfoldable pub is_digit : ℕ → Bool
is_digit c = leb b'0' c && leb c b'9'

-- one more digit is read behind `n`
abbrev pub shift : ℕ → ℕ → ℕ
shift n c = n * 10 + (c - b'0')

-- the number that a text of digits spells behind `n`
unfoldable pub read_digits : Text → ℕ → Option ℕ
unfolding is_digit
read_digits [] n = some n
read_digits (c ∷ s) n = let rest = read_digits s (shift n c) in if is_digit c then rest else none

-- at least one digit, and nothing else
unfoldable pub parse_nat : Text → Option ℕ
unfolding read_digits
parse_nat [] = none
parse_nat (c ∷ s) = read_digits (c ∷ s) 0

-- the fuel bounds the number of digits
print_digits : ℕ → ℕ → Text
print_digits zero n = []
print_digits (suc f) n =
    let front = print_digits f (n / 10) in
    if ltb n 10 then (b'0' + n) ∷ [] else front ++ (b'0' + n % 10) ∷ []

unfoldable pub itoa : ℕ → Text
unfolding print_digits
itoa n = print_digits (suc n) n

read_digits-append :
    (s t : Text) (n m : ℕ) → read_digits s n ≡ some m → read_digits (s ++ t) n ≡ read_digits t m
unfolding read_digits
read_digits-append [] t n m h = ground arith
read_digits-append (c ∷ s) t n m h = ground (arith, read_digits-append s t (shift n c) m)

read_digits-last : (n r : ℕ) → r < 10 → read_digits ((b'0' + r) ∷ []) n ≡ some (n * 10 + r)
unfolding read_digits
read_digits-last n r h = ground arith

read_digits-print_digits : (f n : ℕ) → n < f → read_digits (print_digits f n) 0 ≡ some n
unfolding print_digits
read_digits-print_digits zero n h = absurd (omega arith)
read_digits-print_digits (suc f) n h = elim (Bool-cases (ltb n 10)) [
  | inl e ↦ rw e (read_digits-last 0 n (ltb→lt n 10 e) ∙ ap some (omega arith))
  | inr e ↦ rw e (
      read_digits-append (print_digits f (n / 10)) _ 0 (n / 10)
        (read_digits-print_digits f (n / 10) (ground arith))
      ∙ read_digits-last (n / 10) (n % 10) (omega arith)
      ∙ ap some (omega arith))
]

print_digits-ne-nil : (f n : ℕ) → print_digits (suc f) n ≢ []
unfolding print_digits
print_digits-ne-nil f n = elim (Bool-cases (ltb n 10)) [
  | inl e ↦ rw e (cons-ne-nil (b'0' + n) [])
  | inr e ↦ rw e (concat-ne-nil (b'0' + n % 10) (print_digits f (n / 10)))
]

parse_nat-ne-nil : (s : Text) → s ≢ [] → parse_nat s ≡ read_digits s 0
unfolding parse_nat
parse_nat-ne-nil [] n = absurd (n refl)
parse_nat-ne-nil (c ∷ s) n = refl

-- Every number is read back from its decimal print.
pub parse_nat-itoa : (n : ℕ) → parse_nat (itoa n) ≡ some n
parse_nat-itoa n =
    unfold itoa in
    parse_nat-ne-nil _ (print_digits-ne-nil n n) ∙ read_digits-print_digits (suc n) n (omega arith)

abbrev pub IsDigit : ℕ → Type 0
IsDigit c = (b'0' ≤ c) × (c ≤ b'9')

print_digits-All : (f n : ℕ) → All IsDigit (print_digits f n)
unfolding print_digits
print_digits-All zero n = tt
print_digits-All (suc f) n = elim (Bool-cases (ltb n 10)) [
  | inl e ↦ rw e (ground arith)
  | inr e ↦ rw e (All-append IsDigit _ _ (print_digits-All f (n / 10)) (omega arith))
]

pub itoa-All : (n : ℕ) → All IsDigit (itoa n)
unfolding itoa
itoa-All n = print_digits-All (suc n) n

pub itoa-ne-nil : (n : ℕ) → itoa n ≢ []
unfolding itoa
itoa-ne-nil n = print_digits-ne-nil n n
