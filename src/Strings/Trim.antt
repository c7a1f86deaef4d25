-- ===== src/Strings/Trim.antt =====
-- `strings.TrimSpace`, `strings.Trim`, `TrimRight` and the spaces of `unicode.IsSpace`.
use limiz.Base.{
  ℕ, ◌≡◌, refl, Bool, true, false, ◌&&◌, ◌||◌, [], ◌∷◌, ◌++◌, reverse, Text, ◌==◌, leb,
  if◌then◌else◌, All, ◌≢◌, ==_refl, ne→==, sym, ap, ◌∙◌,
}
use mathlib.Core.List.{reverse-append, reverse-reverse, reverse-cons, cons-ne-nil}

unfoldable pub is_space : ℕ → Bool
is_space c =
    leb 9 c && leb c 13
    || c == 32
    || c == 0x85
    || c == 0xa0
    || c == 0x1680
    || leb 0x2000 c && leb c 0x200a
    || c == 0x2028
    || c == 0x2029
    || c == 0x202f
    || c == 0x205f
    || c == 0x3000

unfoldable pub trim_left_by : (ℕ → Bool) → Text → Text
trim_left_by p [] = []
trim_left_by p (c ∷ s) = if p c then trim_left_by p s else c ∷ s

unfoldable pub trim_right_by : (ℕ → Bool) → Text → Text
unfolding trim_left_by
trim_right_by p s = reverse (trim_left_by p (reverse s))

unfoldable pub trim_by : (ℕ → Bool) → Text → Text
unfolding trim_right_by
trim_by p s = trim_right_by p (trim_left_by p s)

unfoldable pub trim_space : Text → Text
unfolding trim_by is_space
trim_space = trim_by is_space

-- `strings.Trim(s, c)` for a cutset of one character
unfoldable pub trim : ℕ → Text → Text
unfolding trim_by
trim c = trim_by (λ d. d == c)

-- `strings.TrimRight(s, c)` for a cutset of one character
unfoldable pub trim_right : ℕ → Text → Text
unfolding trim_right_by
trim_right c = trim_right_by (λ d. d == c)

-- the text begins, if it has a character, with one that `p` refuses
abbrev pub StartsOutside : (ℕ → Bool) → Text → Type 0
StartsOutside p [] = Unit
StartsOutside p (c ∷ s) = p c ≡ false

-- the text ends, if it has a character, with one that `p` refuses
abbrev pub EndsOutside : (ℕ → Bool) → Text → Type 0
EndsOutside p [] = Unit
EndsOutside p (c ∷ []) = p c ≡ false
EndsOutside p (c ∷ d ∷ s) = EndsOutside p (d ∷ s)

reverse-ne-nil : (c : ℕ) (s : Text) → reverse (c ∷ s) ≢ []
reverse-ne-nil c s e = cons-ne-nil c s (sym (reverse-reverse (c ∷ s)) ∙ ap reverse e)

module _ (p : ℕ → Bool) where
  pub trim_left_by-id : (s : Text) → StartsOutside p s → trim_left_by p s ≡ s
  unfolding trim_left_by
  trim_left_by-id [] h = refl
  trim_left_by-id (c ∷ s) h = rw h

  pub StartsOutside-append : (a b : Text) → a ≢ [] → StartsOutside p a → StartsOutside p (a ++ b)
  StartsOutside-append [] b n h = absurd (n refl)
  StartsOutside-append (c ∷ a) b n h = h

  pub StartsOutside-reverse : (s : Text) → EndsOutside p s → StartsOutside p (reverse s)
  StartsOutside-reverse [] h = tt
  StartsOutside-reverse (c ∷ []) h = h
  StartsOutside-reverse (c ∷ d ∷ s) h = rw (reverse-cons c (d ∷ s)) (
      StartsOutside-append (reverse (d ∷ s)) (c ∷ []) (reverse-ne-nil d s)
        (StartsOutside-reverse (d ∷ s) h))

  -- only the last part decides how a text ends
  pub EndsOutside-append :
      (s : Text) (c : ℕ) (t : Text) → EndsOutside p (c ∷ t) → EndsOutside p (s ++ c ∷ t)
  EndsOutside-append [] c t h = h
  EndsOutside-append (d ∷ []) c t h = h
  EndsOutside-append (d ∷ e ∷ s) c t h = EndsOutside-append (e ∷ s) c t h

  pub StartsOutside-All : (s : Text) → All (λ c. p c ≡ false) s → StartsOutside p s
  StartsOutside-All [] h = tt
  StartsOutside-All (c ∷ s) h = h.0

  pub EndsOutside-mono :
      (q : ℕ → Bool)
      → ((c : ℕ) → p c ≡ false → q c ≡ false)
      → (s : Text) → EndsOutside p s
      → EndsOutside q s
  EndsOutside-mono q f [] h = tt
  EndsOutside-mono q f (c ∷ []) h = f c h
  EndsOutside-mono q f (c ∷ d ∷ s) h = EndsOutside-mono q f (d ∷ s) h

  pub EndsOutside-join : (s t : Text) → t ≢ [] → EndsOutside p t → EndsOutside p (s ++ t)
  EndsOutside-join s [] n h = absurd (n refl)
  EndsOutside-join s (c ∷ t) n h = EndsOutside-append s c t h

  pub EndsOutside-All : (s : Text) → All (λ c. p c ≡ false) s → EndsOutside p s
  EndsOutside-All [] h = tt
  EndsOutside-All (c ∷ []) h = h.0
  EndsOutside-All (c ∷ d ∷ s) h = EndsOutside-All (d ∷ s) h.1

  pub trim_right_by-id : (s : Text) → EndsOutside p s → trim_right_by p s ≡ s
  unfolding trim_right_by
  trim_right_by-id s h =
      rw (trim_left_by-id (reverse s) (StartsOutside-reverse s h)) (reverse-reverse s)

  pub trim_by-id : (s : Text) → StartsOutside p s → EndsOutside p s → trim_by p s ≡ s
  unfolding trim_by
  trim_by-id s h k = rw (trim_left_by-id s h) (trim_right_by-id s k)

  pub trim_left_by-append :
      (a s : Text) → All (λ c. p c ≡ true) a → trim_left_by p (a ++ s) ≡ trim_left_by p s
  unfolding trim_left_by
  trim_left_by-append [] s h = refl
  trim_left_by-append (c ∷ a) s h = rw h.0 (trim_left_by-append a s h.1)

pub trim_space-id :
    (s : Text) → StartsOutside is_space s → EndsOutside is_space s → trim_space s ≡ s
unfolding trim_space
trim_space-id s h k = trim_by-id is_space s h k

-- the spaces in front of a text go
pub trim_space-cons : (c : ℕ) (s : Text) → is_space c ≡ true → trim_space (c ∷ s) ≡ trim_space s
unfolding trim_space
trim_space-cons c s h = rw (h, trim_left_by)

pub trim_right_by-concat :
    (p : ℕ → Bool) (w : Text) (q : ℕ)
    → p q ≡ true
    → trim_right_by p (w ++ q ∷ []) ≡ trim_right_by p w
unfolding trim_right_by
trim_right_by-concat p w q h =
    rw reverse-append (ap reverse (trim_left_by-append p (q ∷ []) (reverse w) (h, tt)))

trim_left_by-quoted :
    (q : ℕ) (v : Text)
    → All (λ d. d ≢ q) v
    → trim_right_by (λ d. d == q) (trim_left_by (λ d. d == q) (v ++ q ∷ [])) ≡ v
unfolding trim_left_by
trim_left_by-quoted q [] h = rw ==_refl (unfold trim_right_by in refl)
trim_left_by-quoted q (c ∷ v) h = rw (ne→== c q h.0) (
    trim_right_by-concat _ (c ∷ v) q (==_refl q)
    ∙ trim_right_by-id _ (c ∷ v) (EndsOutside-All _ (c ∷ v) (All-differ (c ∷ v) h)))
  where
    All-differ : (w : Text) → All (λ d. d ≢ q) w → All (λ d. (d == q) ≡ false) w
    All-differ [] k = tt
    All-differ (d ∷ w) k = (ne→== d q k.0, All-differ w k.1)

-- `strings.Trim` takes the two quotes off a text that holds no other
pub trim-quoted : (q : ℕ) (v : Text) → All (λ d. d ≢ q) v → trim q (q ∷ (v ++ q ∷ [])) ≡ v
trim-quoted q v h =
    unfold trim trim_by in
    rw (trim_left_by-append (λ d. d == q) (q ∷ []) (v ++ q ∷ []) (==_refl q, tt))
      (trim_left_by-quoted q v h)

-- A space behind a text that begins and ends with none goes.
pub trim_space-concat :
    (s : Text) (q : ℕ)
    → s ≢ []
    → StartsOutside is_space s
    → EndsOutside is_space s
    → is_space q ≡ true
    → trim_space (s ++ q ∷ []) ≡ s
trim_space-concat s q n h k e =
    unfold trim_space trim_by in
    rw (trim_left_by-id is_space (s ++ q ∷ []) (StartsOutside-append is_space s (q ∷ []) n h))
      (trim_right_by-concat is_space s q e ∙ trim_right_by-id is_space s k)
