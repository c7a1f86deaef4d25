-- ===== src/Time/Duration.antt =====
-- `time.ParseDuration`: a duration is a signed 64-bit count of nanoseconds. The part of a number
-- behind its point is scaled exactly and rounded down, where Go computes in float64.
use limiz.Base.{
  ℕ, zero, suc, ◌+◌, ◌-◌, ◌*◌, ◌/◌, ◌^◌, Text, [], ◌∷◌, Bool, true, false, not, ◌||◌, none, some,
  Option, if◌then◌else◌, ltb, ◌==◌, codes, text_eq, ℤ, pos, neg, Map, lookup, length,
}
use limiz.Strconv.Decimal.{is_digit, shift}

abbrev pub second : ℕ
second = 1_000_000_000

abbrev pub minute : ℕ
minute = 60 * second

abbrev pub hour : ℕ
hour = 60 * minute

abbrev units : Map ℕ
units =
    (codes "ns", 1)
    ∷ (codes "us", 1000)
    ∷ (codes "µs", 1000)
    ∷ (codes "μs", 1000)
    ∷ (codes "ms", 1_000_000)
    ∷ (codes "s", second)
    ∷ (codes "m", minute)
    ∷ (codes "h", hour)
    ∷ []

-- `leadingInt`: the value and what follows the digits; none above 2^63
leading_int : ℕ → Text → Option (ℕ × Text)
unfolding is_digit
leading_int v [] = some (v, [])
leading_int v (c ∷ s) =
    let rest = leading_int (shift v c) s in
    if not (is_digit c)
    then some (v, c ∷ s)
    else if ltb (2 ^ 63 / 10) v
    then none
    else if ltb (2 ^ 63) (shift v c)
    then none
    else rest

-- `leadingFraction`: digits that would overflow are read and dropped
leading_fraction : ℕ → ℕ → Bool → Text → ℕ × ℕ × Text
unfolding is_digit
leading_fraction f scale full [] = (f, scale, [])
leading_fraction f scale full (c ∷ s) =
    let full' = full || ltb ((2 ^ 63 - 1) / 10) f || ltb (2 ^ 63) (shift f c) in
    let rest =
      leading_fraction (if full' then f else shift f c) (if full' then scale else scale * 10) full'
        s in
    if is_digit c then rest else (f, scale, c ∷ s)

-- the unit's name ends before the next digit or point
unit_name : Text → Text × Text
unfolding is_digit
unit_name [] = ([], [])
unit_name (c ∷ s) =
    let (u, rest) = unit_name s in if c == b'.' || is_digit c then ([], c ∷ s) else (c ∷ u, rest)

-- what stands behind the number: its unit, and the sum so far in `d`
add_unit : ℕ → ℕ → ℕ → ℕ → Text → Option (ℕ × Text)
unfolding unit_name lookup text_eq
add_unit d v f scale s =
    let (u, rest) = unit_name s in
    elim (lookup u units) [
      | none ↦ none
      | some unit ↦
          if ltb (2 ^ 63 / unit) v
          then none
          else let w = v * unit + f * unit / scale in
            if ltb (2 ^ 63) w || ltb (2 ^ 63) (d + w) then none else some (d + w, rest)
    ]

starts_number : ℕ → Bool
unfolding is_digit
starts_number c = c == b'.' || is_digit c

-- the optional point and fraction behind the whole part; `pre` tells whether that had a digit
after_int : ℕ → Bool → ℕ → Text → Option (ℕ × Text)
unfolding add_unit leading_fraction
after_int d pre v [] = none
after_int d pre v (c ∷ s) =
    let (f, scale, rest) = leading_fraction 0 1 false s in
    if c == b'.'
    then (if pre || ltb (length rest) (length s) then add_unit d v f scale rest else none)
    else if pre
    then add_unit d v 0 1 (c ∷ s)
    else none

-- each round reads a number and its unit, so the length of the text is fuel enough
sum_units : ℕ → ℕ → Text → Option ℕ
unfolding starts_number leading_int after_int
sum_units fuel d [] = some d
sum_units zero d (c ∷ s) = none
sum_units (suc fuel) d (c ∷ s) =
    if not (starts_number c) then none else elim (leading_int 0 (c ∷ s)) [
      | none ↦ none
      | some (v, rest) ↦ elim (after_int d (ltb (length rest) (length (c ∷ s))) v rest) [
        | none ↦ none
        | some (d', rest') ↦ sum_units fuel d' rest'
      ]
    ]

unsigned : Bool → Text → Option ℤ
unfolding sum_units
unsigned minus [] = none
unsigned minus (c ∷ s) =
    if text_eq (c ∷ s) (codes "0")
    then some (pos 0)
    else elim (sum_units (length (c ∷ s)) 0 (c ∷ s)) [
      | none ↦ none
      | some d ↦ if minus then some (neg d) else if ltb (2 ^ 63 - 1) d then none else some (pos d)
    ]

unfoldable pub parse_duration : Text → Option ℤ
unfolding unsigned
parse_duration [] = none
parse_duration (c ∷ s) =
    if c == b'-'
    then unsigned true s
    else if c == b'+'
    then unsigned false s
    else unsigned false (c ∷ s)
