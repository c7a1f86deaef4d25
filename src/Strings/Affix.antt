-- ===== src/Strings/Affix.antt =====
-- `strings.HasPrefix`, `HasSuffix`, `TrimPrefix`, `TrimSuffix`, `Contains`, and the two halves of a
-- text around the first or the last occurrence of a character (`IndexByte`, `LastIndex`).
use limiz.Base.{
  ℕ, ◌≡◌, refl, ◌≢◌, Bool, true, false, ◌&&◌, ◌||◌, Option, none, some, [], ◌∷◌, ◌++◌, reverse,
  arith, Text, ◌==◌, if◌then◌else◌, length, drop, drop-length-append, All,
}
use mathlib.Core.List.{reverse-append, reverse-reverse}

unfoldable pub has_prefix : Text → Text → Bool
has_prefix [] s = true
has_prefix (c ∷ p) [] = false
has_prefix (c ∷ p) (d ∷ s) = c == d && has_prefix p s

unfoldable pub has_suffix : Text → Text → Bool
unfolding has_prefix
has_suffix p s = has_prefix (reverse p) (reverse s)

-- `strings.TrimPrefix(s, p)`, and `s[len(p):]` where the prefix has been tested.
unfoldable pub trim_prefix : Text → Text → Text
unfolding has_prefix
trim_prefix p s = if has_prefix p s then drop (length p) s else s

unfoldable pub trim_suffix : Text → Text → Text
unfolding trim_prefix
trim_suffix p s = reverse (trim_prefix (reverse p) (reverse s))

unfoldable pub contains : Text → Text → Bool
unfolding has_prefix
contains p [] = has_prefix p []
contains p (c ∷ s) = has_prefix p (c ∷ s) || contains p s

-- `i := strings.IndexByte(s, c)`: the pair `s[:i]`, `s[i+1:]`, or none where `i` is -1.
unfoldable pub cut : ℕ → Text → Option (Text × Text)
cut c [] = none
cut c (d ∷ s) =
    let rest = cut c s in
    if d == c then some ([], s) else elim rest [ none ↦ none | some (a, b) ↦ some (d ∷ a, b) ]

-- `i := strings.LastIndex(s, c)`: the pair `s[:i]`, `s[i+1:]`, or none where `i` is -1.
unfoldable pub cut_last : ℕ → Text → Option (Text × Text)
cut_last c [] = none
cut_last c (d ∷ s) = elim (cut_last c s) [
  | some (a, b) ↦ some (d ∷ a, b)
  | none ↦ if d == c then some ([], s) else none
]

-- no character of the text is `c`
abbrev pub Lacks : ℕ → Text → Type 0
Lacks c = All (λ d. d ≢ c)

pub has_prefix-append : (p s : Text) → has_prefix p (p ++ s) ≡ true
unfolding has_prefix
has_prefix-append [] s = refl
has_prefix-append (c ∷ p) s = ground (arith, has_prefix-append p s)

pub has_suffix-append : (s p : Text) → has_suffix p (s ++ p) ≡ true
unfolding has_suffix
has_suffix-append s p = rw reverse-append (has_prefix-append (reverse p) (reverse s))

pub trim_prefix-append : (p s : Text) → trim_prefix p (p ++ s) ≡ s
unfolding trim_prefix
trim_prefix-append p s = rw has_prefix-append (drop-length-append p s)

pub trim_suffix-append : (s p : Text) → trim_suffix p (s ++ p) ≡ s
unfolding trim_suffix
trim_suffix-append s p = rw (reverse-append, trim_prefix-append) (reverse-reverse s)

pub cut-append : (c : ℕ) (a b : Text) → Lacks c a → cut c (a ++ c ∷ b) ≡ some (a, b)
unfolding cut
cut-append c [] b h = ground arith
cut-append c (d ∷ a) b h = ground (arith, cut-append c a b h.1)

pub cut-Lacks : (c : ℕ) (a : Text) → Lacks c a → cut c a ≡ none
unfolding cut
cut-Lacks c [] h = refl
cut-Lacks c (d ∷ a) h = ground (arith, cut-Lacks c a h.1)

-- The two halves and the character spell the text.
pub cut_sound : (c : ℕ) (s a b : Text) → cut c s ≡ some (a, b) → (s ≡ a ++ c ∷ b) × Lacks c a
unfolding cut
cut_sound c [] a b h = ground arith
cut_sound c (d ∷ s) [] b h = ground arith
cut_sound c (d ∷ s) (e ∷ a) b h = ground (arith, cut_sound c s a b)

pub cut_last-Lacks : (c : ℕ) (a : Text) → Lacks c a → cut_last c a ≡ none
unfolding cut_last
cut_last-Lacks c [] h = refl
cut_last-Lacks c (d ∷ a) h = ground (arith, cut_last-Lacks c a h.1)

pub cut_last-append : (c : ℕ) (a b : Text) → Lacks c b → cut_last c (a ++ c ∷ b) ≡ some (a, b)
unfolding cut_last
cut_last-append c [] b h = ground (arith, cut_last-Lacks c b h)
cut_last-append c (d ∷ a) b h = rw (cut_last-append c a b h)

-- A text with a prefix is that prefix and a rest.
pub has_prefix_sound : (p s : Text) → has_prefix p s ≡ true → (t : Text) × (s ≡ p ++ t)
unfolding has_prefix
has_prefix_sound [] s h = (s, refl)
has_prefix_sound (c ∷ p) [] h = cc
has_prefix_sound (c ∷ p) (d ∷ s) h =
    let (t, e) = has_prefix_sound p s (ground arith) in (t, ground (arith, e))
