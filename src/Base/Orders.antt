-- ===== src/Base/Orders.antt =====
-- The orders of Go's `<` on strings, on int64 and by a field.
use mathlib.Core.Path.{◌≡◌, refl}
use mathlib.Core.Bool.{Bool, true, false}
use mathlib.Core.List.{[], ◌∷◌}
use native.Mathlib.Omega.{arith}
use limiz.Base.Tests.{Text, if◌then◌else◌, ltb, ◌==◌}
use limiz.Base.Int.{ℤ, pos, negsuc, ltb_ℤ}
use limiz.Base.Sort.{IsOrder}

-- `a < b` on strings; UTF-8 orders them as their code points are ordered
unfoldable pub text_less : Text → Text → Bool
text_less s [] = false
text_less [] (d ∷ t) = true
text_less (c ∷ s) (d ∷ t) = if ltb c d then true else if c == d then text_less s t else false

text_less_asym : (s t : Text) → text_less s t ≡ true → text_less t s ≡ false
unfolding text_less
text_less_asym [] [] h = refl
text_less_asym [] (d ∷ t) h = refl
text_less_asym (c ∷ s) [] h = ground arith
text_less_asym (c ∷ s) (d ∷ t) h = ground (arith, text_less_asym s t)

text_less_trans :
    (s t u : Text) → text_less t s ≡ false → text_less u t ≡ false → text_less u s ≡ false
unfolding text_less
text_less_trans [] t u h k = refl
text_less_trans (c ∷ s) [] u h k = ground arith
text_less_trans (c ∷ s) (d ∷ t) [] h k = ground arith
text_less_trans (c ∷ s) (d ∷ t) (e ∷ u) h k = ground (arith, text_less_trans s t u)

pub text_less-IsOrder : IsOrder text_less
text_less-IsOrder = record { asym = text_less_asym; trans = text_less_trans }

ltb_ℤ_asym : (a b : ℤ) → ltb_ℤ a b ≡ true → ltb_ℤ b a ≡ false
ltb_ℤ_asym (pos a) (pos b) h = ground arith
ltb_ℤ_asym (pos a) (negsuc b) h = ground arith
ltb_ℤ_asym (negsuc a) (pos b) h = refl
ltb_ℤ_asym (negsuc a) (negsuc b) h = ground arith

ltb_ℤ_trans : (a b c : ℤ) → ltb_ℤ b a ≡ false → ltb_ℤ c b ≡ false → ltb_ℤ c a ≡ false
ltb_ℤ_trans (pos a) (pos b) (pos c) h k = ground arith
ltb_ℤ_trans (pos a) (pos b) (negsuc c) h k = ground arith
ltb_ℤ_trans (pos a) (negsuc b) c h k = ground arith
ltb_ℤ_trans (negsuc a) (pos b) (pos c) h k = refl
ltb_ℤ_trans (negsuc a) (pos b) (negsuc c) h k = ground arith
ltb_ℤ_trans (negsuc a) (negsuc b) (pos c) h k = refl
ltb_ℤ_trans (negsuc a) (negsuc b) (negsuc c) h k = ground arith

pub ltb_ℤ-IsOrder : IsOrder ltb_ℤ
ltb_ℤ-IsOrder = record { asym = ltb_ℤ_asym; trans = ltb_ℤ_trans }

-- an order on a field of the elements
pub IsOrder-by {ℓ κ} :
    {A : Type ℓ} {B : Type κ} (less : B → B → Bool) (f : A → B)
    → IsOrder less
    → IsOrder (λ (x y : A). less (f x) (f y))
IsOrder-by less f o = record {
  asym = λ x y h. o.asym (f x) (f y) h;
  trans = λ x y z h k. o.trans (f x) (f y) (f z) h k;
}
