-- ===== src/Monitor/Summary/Window.antt =====
-- internal/monitor/cli.go: the requested duration.
use limiz.Base.{
  [], ◌*◌, Text, false, none, text_eq, pos, ltb_ℤ, ◌≡◌, refl, arith, Bool-cases, Option-cases, inl,
  inr,
}
use limiz.Time.Duration.{parse_duration, minute, hour}
use limiz.Monitor.Summary.{window}

-- An accepted duration is at least a minute and at most a day.
pub window-bounds :
    (text : Text)
    → (window text).0 ≡ none
    → (ltb_ℤ (window text).1 (pos minute) ≡ false)
      × (ltb_ℤ (pos (24 * hour)) (window text).1 ≡ false)
unfolding window
window-bounds text h = elim (Bool-cases (text_eq text [])) [
  | inl e ↦ rw (e, window) (refl, refl)
  | inr e ↦ elim (Option-cases (parse_duration text)) [
    | inl p ↦ absurd (ground arith)
    | inr (d, p) ↦ elim (Bool-cases (ltb_ℤ d (pos minute))) [
      | inl a ↦ absurd (ground arith)
      | inr a ↦ elim (Bool-cases (ltb_ℤ (pos (24 * hour)) d)) [
        | inl b ↦ absurd (ground arith)
        | inr b ↦ rw (window, e, p, a, b) (a, b)
      ]
    ]
  ]
]
