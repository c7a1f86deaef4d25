-- ===== src/Collectors/Plugin/Timeout.antt =====
-- The timeout under which a plugin's binary runs, and the path at which it is looked for.
use limiz.Base.{
  Text, List, [], ◌∷◌, ◌*◌, true, false, some, ℤ, pos, ltb_ℤ, ◌≡◌, ◌⊎◌, inl, inr, refl, arith,
  text_eq, Option-cases, Bool-cases,
}
use limiz.Time.Duration.{parse_duration, second}
use limiz.Collectors.Plugin.{ExecPlugin, timeout, first_timeout}

-- a text that stands for a positive duration
pub record IsUsable (s : Text) (d : ℤ) : Type 0 where
  pub parsed : parse_duration s ≡ some d
  pub positive : ltb_ℤ (pos 0) d ≡ true

-- the empty text is no duration
parse_duration-nil : (s : Text) (d : ℤ) → parse_duration s ≡ some d → text_eq s [] ≡ false
unfolding parse_duration text_eq
parse_duration-nil [] d h = ground arith
parse_duration-nil (c ∷ s) d h = refl

first_timeout-IsUsable :
    (s : Text) (rest : List Text) (d : ℤ) → IsUsable s d → first_timeout (s ∷ rest) ≡ d
unfolding first_timeout
first_timeout-IsUsable s rest d u = ground (arith, parse_duration-nil s d u.parsed)

first_timeout-skip :
    (s : Text) (rest : List Text)
    → ((d : ℤ) → ¬ IsUsable s d)
    → first_timeout (s ∷ rest) ≡ first_timeout rest
unfolding first_timeout
first_timeout-skip s rest n = elim (Option-cases (parse_duration s)) [
  | inl e ↦ ground arith
  | inr (d, e) ↦ elim (Bool-cases (ltb_ℤ (pos 0) d)) [
    | inl p ↦ absurd (n d (record { parsed = e; positive = p }))
    | inr p ↦ ground arith
  ]
]

first_timeout_pos : (ss : List Text) → ltb_ℤ (pos 0) (first_timeout ss) ≡ true
unfolding first_timeout
first_timeout_pos [] = refl
first_timeout_pos (s ∷ ss) = ground (arith, first_timeout_pos ss)

-- the source of a timeout, the default of the program included
abbrev pub IsFrom : List Text → ℤ → Type 0
IsFrom [] d = d ≡ pos (10 * second)
IsFrom (s ∷ ss) d = IsUsable s d ⊎ IsFrom ss d

first_timeout-IsFrom : (ss : List Text) → IsFrom ss (first_timeout ss)
first_timeout-IsFrom [] = unfold first_timeout in refl
first_timeout-IsFrom (s ∷ ss) = elim (Option-cases (parse_duration s)) [
  | inl e ↦ rw (first_timeout-skip s ss (λ d u. cc (e, u.parsed))) (inr (first_timeout-IsFrom ss))
  | inr (d, e) ↦ elim (Bool-cases (ltb_ℤ (pos 0) d)) [
    | inl p ↦
        let u : IsUsable s d = record { parsed = e; positive = p } in
        rw (first_timeout-IsUsable s ss d u) (inl u)
    | inr p ↦
        rw (first_timeout-skip s ss (λ x u. not_usable d p e x u)) (inr (first_timeout-IsFrom ss))
  ]
]
  where
    not_usable :
        (d : ℤ) → ltb_ℤ (pos 0) d ≡ false → parse_duration s ≡ some d → (x : ℤ) → ¬ IsUsable s x
    not_usable d p e x u = ground (arith, u.parsed, u.positive)

-- The timeout of a plugin is positive, and it is the item's own, or the default of the configuration,
-- or ten seconds.
pub timeout_lem :
    (p : ExecPlugin)
    → (ltb_ℤ (pos 0) (timeout p) ≡ true)
      × (IsUsable p.item.timeout (timeout p)
          ⊎ IsUsable p.cfg.default_timeout (timeout p)
          ⊎ (timeout p ≡ pos (10 * second)))
unfolding timeout
timeout_lem p = (
  first_timeout_pos (p.item.timeout ∷ p.cfg.default_timeout ∷ []),
  first_timeout-IsFrom (p.item.timeout ∷ p.cfg.default_timeout ∷ []),
)

-- An item's own timeout comes first.
pub timeout-IsUsable : (p : ExecPlugin) (d : ℤ) → IsUsable p.item.timeout d → timeout p ≡ d
unfolding timeout
timeout-IsUsable p d u = first_timeout-IsUsable p.item.timeout (p.cfg.default_timeout ∷ []) d u
