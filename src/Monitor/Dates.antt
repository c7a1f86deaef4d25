-- ===== src/Monitor/Dates.antt =====
-- `time.Parse("2006-01-02", s)`, as monitor/store.go uses it: whether a text is a date.
use limiz.Base.{
  ℕ, ◌+◌, ◌*◌, ◌-◌, ◌%◌, Text, [], ◌∷◌, Bool, false, not, ◌&&◌, ◌||◌, if◌then◌else◌, leb, ◌==◌,
}
use limiz.Strconv.Decimal.{is_digit}

abbrev digit : ℕ → ℕ
digit c = c - b'0'

is_leap : ℕ → Bool
is_leap y = y % 4 == 0 && (not (y % 100 == 0) || y % 400 == 0)

days_in : ℕ → ℕ → ℕ
unfolding is_leap
days_in y m =
    if m == 2
    then (if is_leap y then 29 else 28)
    else if m == 4 || m == 6 || m == 9 || m == 11
    then 30
    else 31

is_day : ℕ → ℕ → ℕ → Bool
unfolding days_in
is_day y m d = leb 1 m && leb m 12 && leb 1 d && leb d (days_in y m)

-- four digits, two and two, with dashes between
unfoldable pub is_date : Text → Bool
unfolding is_digit is_day
is_date (a ∷ b ∷ c ∷ d ∷ p ∷ e ∷ f ∷ q ∷ g ∷ h ∷ []) =
    is_digit a
    && is_digit b
    && is_digit c
    && is_digit d
    && is_digit e
    && is_digit f
    && is_digit g
    && is_digit h
    && p == b'-'
    && q == b'-'
    && is_day (1000 * digit a + 100 * digit b + 10 * digit c + digit d) (10 * digit e + digit f)
        (10 * digit g + digit h)
is_date _ = false
