-- ===== src/LocalWriter/Intervals.antt =====
-- internal/localwriter/writer.go: `parseDuration`, which takes days besides Go's own durations.
use limiz.Base.{
  ℕ, ◌*◌, ◌^◌, ◌%◌, ◌≤◌, ◌<◌, Text, [], ◌∷◌, ◌++◌, Bool, true, false, not, ◌&&◌, none, some, Option,
  if◌then◌else◌, ltb, leb, ◌==◌, codes, ℤ, pos, neg, of_word, to_word, All, ◌≡◌, ◌≢◌, ◌∙◌, refl, ap,
  arith, lt→ltb,
}
use limiz.Strings.Affix.{has_suffix, trim_suffix, has_suffix-append, trim_suffix-append}
use limiz.Strings.Trim.{is_space}
use limiz.Strconv.Decimal.{
  is_digit, parse_nat, itoa, parse_nat-itoa, itoa-All, itoa-ne-nil, IsDigit,
}
use limiz.Time.Duration.{parse_duration, hour}

-- the digits at the front; what stands behind them is not read
take_digits : Text → Text
unfolding is_digit
take_digits [] = []
take_digits (c ∷ s) = if is_digit c then c ∷ take_digits s else []

skip_space : Text → Text
unfolding is_space
skip_space [] = []
skip_space (c ∷ s) = if is_space c && not (c == b'\n') then skip_space s else c ∷ s

-- the value of the digits under a sign, none out of the range of int64
signed : Bool → Option ℕ → Option ℤ
signed minus none = none
signed false (some n) = if ltb n (2 ^ 63) then some (pos n) else none
signed true (some n) = if leb n (2 ^ 63) then some (neg n) else none

scan_signed : Text → Option ℤ
unfolding signed take_digits parse_nat
scan_signed [] = none
scan_signed (c ∷ s) =
    if c == b'-'
    then signed true (parse_nat (take_digits s))
    else if c == b'+'
    then signed false (parse_nat (take_digits s))
    else signed false (parse_nat (take_digits (c ∷ s)))

-- `fmt.Sscanf(s, "%d", &days)`
unfoldable pub scan_int : Text → Option ℤ
unfolding scan_signed skip_space
scan_int s = scan_signed (skip_space s)

-- `time.Duration(days) * 24 * time.Hour`, on 64-bit words
abbrev pub days_duration : ℤ → ℤ
days_duration days = of_word (to_word days * (24 * hour) % 2 ^ 64)

days_of : Option ℤ → Option ℤ
days_of none = none
days_of (some days) = some (days_duration days)

parse_days : Text → Option ℤ
unfolding days_of scan_int trim_suffix
parse_days s = days_of (scan_int (trim_suffix (codes "d") s))

unfoldable pub parse_interval : Text → Option ℤ
unfolding parse_days parse_duration has_suffix
parse_interval s = if has_suffix (codes "d") s then parse_days s else parse_duration s

take_digits-IsDigit : (s : Text) → All IsDigit s → take_digits s ≡ s
unfolding take_digits is_digit
take_digits-IsDigit [] h = refl
take_digits-IsDigit (c ∷ s) h = ground (arith, take_digits-IsDigit s h.1, h.0)

-- a digit is no space, sign or line break
digit-first :
    (c : ℕ) → IsDigit c → (is_space c ≡ false) × ((c == b'-') ≡ false) × ((c == b'+') ≡ false)
unfolding is_space
digit-first c h = (ground arith, ground arith, ground arith)

scan_int-digits :
    (c : ℕ) (s : Text) (n : ℕ)
    → All IsDigit (c ∷ s)
    → parse_nat (c ∷ s) ≡ some n
    → n < 2 ^ 63
    → scan_int (c ∷ s) ≡ some (pos n)
unfolding scan_int scan_signed skip_space signed
scan_int-digits c s n h e k =
    let (space, minus, plus) = digit-first c h.0 in
    rw (scan_int, skip_space, space)
      (rw (scan_signed, minus, plus, take_digits-IsDigit (c ∷ s) h, e, signed, lt→ltb n (2 ^ 63) k)
        refl)

scan_int-itoa : (n : ℕ) → n < 2 ^ 63 → scan_int (itoa n) ≡ some (pos n)
scan_int-itoa n h = go (itoa n) (itoa-ne-nil n) (itoa-All n) (parse_nat-itoa n)
  where
    go : (s : Text) → s ≢ [] → All IsDigit s → parse_nat s ≡ some n → scan_int s ≡ some (pos n)
    go [] ne d e = absurd (ne refl)
    go (c ∷ s) ne d e = scan_int-digits c s n d e h

days_duration-small : (n : ℕ) → n ≤ 106751 → days_duration (pos n) ≡ pos (n * (24 * hour))
days_duration-small n h = ground arith

parse_days-itoa :
    (n : ℕ) → n ≤ 106751 → parse_days (itoa n ++ codes "d") ≡ some (pos (n * (24 * hour)))
unfolding parse_days days_of
parse_days-itoa n h =
    ap (λ t. days_of (scan_int t)) (trim_suffix-append (itoa n) (codes "d"))
    ∙ ap days_of (scan_int-itoa n (omega arith))
    ∙ ap some (days_duration-small n h)

-- A number of days up to 106751, which is as far as int64 nanoseconds reach, means that many times 24
-- hours.
pub parse_interval-days :
    (n : ℕ) → n ≤ 106751 → parse_interval (itoa n ++ codes "d") ≡ some (pos (n * (24 * hour)))
unfolding parse_interval
parse_interval-days n h =
    ap (λ b. if b then parse_days (itoa n ++ codes "d") else parse_duration (itoa n ++ codes "d"))
      (has_suffix-append (itoa n) (codes "d"))
    ∙ parse_days-itoa n h
