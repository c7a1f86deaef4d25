-- ===== src/Strings/Split.antt =====
-- `strings.Split` and `strings.Join` for a separator of one character, and `SplitN(s, c, 2)`, which
-- is `cut` of Strings/Affix.antt.
use limiz.Base.{
  ℕ, ◌≡◌, refl, ◌≢◌, false, List, [], ◌∷◌, ◌++◌, arith, Text, ◌==◌, if◌then◌else◌, All, Bool-cases,
  inl, inr,
}
use limiz.Strings.Affix.{Lacks}

-- puts a character in front of the first part
abbrev pub push {ℓ} : {A : Type ℓ} → A → List (List A) → List (List A)
push c [] = (c ∷ []) ∷ []
push c (p ∷ ps) = (c ∷ p) ∷ ps

unfoldable pub split : ℕ → Text → List Text
split c [] = [] ∷ []
split c (d ∷ s) = let rest = split c s in if d == c then [] ∷ rest else push d rest

unfoldable pub join : ℕ → List Text → Text
join c [] = []
join c (p ∷ []) = p
join c (p ∷ q ∷ ps) = p ++ c ∷ join c (q ∷ ps)

-- A part without the separator, then the separator.
pub split-append : (c : ℕ) (p s : Text) → Lacks c p → split c (p ++ c ∷ s) ≡ p ∷ split c s
unfolding split
split-append c [] s h = ground arith
split-append c (d ∷ p) s h = ground (arith, split-append c p s h.1)

pub split-Lacks : (c : ℕ) (p : Text) → Lacks c p → split c p ≡ p ∷ []
unfolding split
split-Lacks c [] h = refl
split-Lacks c (d ∷ p) h = ground (arith, split-Lacks c p h.1)

pub split-ne-nil : (c : ℕ) (s : Text) → split c s ≢ []
unfolding split
split-ne-nil c [] = ground arith
split-ne-nil c (d ∷ s) = ground (arith, split-ne-nil c s)

pub split-join : (c : ℕ) (ps : List Text) → ps ≢ [] → All (Lacks c) ps → split c (join c ps) ≡ ps
unfolding join
split-join c [] n h = absurd (n refl)
split-join c (p ∷ []) n h = split-Lacks c p h.0
split-join c (p ∷ q ∷ ps) n h =
    rw (split-append c p (join c (q ∷ ps)) h.0) (rw (split-join c (q ∷ ps) (cc) h.1))

-- a part that gets one more character still lacks the separator
push-Lacks :
    (c d : ℕ) (ps : List Text) → (d == c) ≡ false → All (Lacks c) ps → All (Lacks c) (push d ps)
push-Lacks c d [] e h = ground arith
push-Lacks c d (p ∷ ps) e h = ground arith

-- No part of a split holds the separator.
pub split-All-Lacks : (c : ℕ) (s : Text) → All (Lacks c) (split c s)
unfolding split
split-All-Lacks c [] = (tt, tt)
split-All-Lacks c (d ∷ s) = elim (Bool-cases (d == c)) [
  | inl e ↦ rw e (tt, split-All-Lacks c s)
  | inr e ↦ rw e (push-Lacks c d (split c s) e (split-All-Lacks c s))
]
