-- ===== src/Base/SortUnique.antt =====
-- Sorted lists of texts and their elements.
use Prim.Native.Nat.{ℕ, suc}
use mathlib.Core.Path.{◌≡◌, refl, ◌∙◌, sym, ap}
use mathlib.Core.Logic.{inl, inr}
use mathlib.Core.Bool.{false}
use mathlib.Core.List.{List, [], ◌∷◌}
use native.Mathlib.Omega.{arith}
use limiz.Base.Tests.{Text, Bool-cases, text_eq, text_eq→eq, text_eq_refl}
use limiz.Base.Lists.{All}
use limiz.Base.Sort.{
  IsSorted, SameElements, count_of, insertion_sort, insertion_sort-IsSorted,
  insertion_sort-SameElements,
}
use limiz.Base.Orders.{text_less, text_less-IsOrder}

text_less_antisym : (s t : Text) → text_less s t ≡ false → text_less t s ≡ false → s ≡ t
unfolding text_less
text_less_antisym [] [] h k = refl
text_less_antisym [] (d ∷ t) h k = ground arith
text_less_antisym (c ∷ s) [] h k = ground arith
text_less_antisym (c ∷ s) (d ∷ t) h k = ground (arith, text_less_antisym s t)

abbrev occurs : Text → List Text → ℕ
occurs x xs = count_of (λ y. text_eq x y) xs

occurs_self : (x : Text) (xs : List Text) → occurs x (x ∷ xs) ≡ suc (occurs x xs)
unfolding count_of
occurs_self x xs = rw (text_eq_refl x) refl

-- what occurs satisfies what all elements do
All-occurs : (P : Text → Type 0) (x : Text) (xs : List Text) → All P xs → ¬ (occurs x xs ≡ 0) → P x
unfolding count_of
All-occurs P x [] h n = absurd (n refl)
All-occurs P x (y ∷ ys) h n = elim (Bool-cases (text_eq x y)) [
  | inl e ↦ rw (text_eq→eq x y e) h.0
  | inr e ↦ All-occurs P x ys h.1 (rw (count_of, e) at n)
]

irreflexive : (x : Text) → text_less x x ≡ false
irreflexive x = elim (Bool-cases (text_less x x)) [
  | inl e ↦ text_less-IsOrder.asym x x e
  | inr e ↦ e
]

-- the first element is at most each that occurs
first-least :
    (x y : Text) (xs : List Text)
    → IsSorted text_less (x ∷ xs)
    → ¬ (occurs y (x ∷ xs) ≡ 0)
    → text_less y x ≡ false
first-least x y xs s n = All-occurs (λ z. text_less z x ≡ false) y (x ∷ xs) (irreflexive x, s.0) n

tails : (x : Text) (xs ys : List Text) → SameElements (x ∷ xs) (x ∷ ys) → SameElements xs ys
unfolding count_of
tails x xs ys e p = elim (Bool-cases (p x)) [
  | inl h ↦ omega (arith, rw (count_of, h) at (e p))
  | inr h ↦ rw (count_of, h) at (e p)
]

pub nil-ne-SameElements : (y : Text) (ys : List Text) → ¬ SameElements [] (y ∷ ys)
unfolding count_of
nil-ne-SameElements y ys e = omega (arith, e (λ z. text_eq y z), occurs_self y ys)

-- each of two lists with the same elements has the other's first
first-occurs :
    (x y : Text) (xs ys : List Text) → SameElements (x ∷ xs) (y ∷ ys) → ¬ (occurs x (y ∷ ys) ≡ 0)
first-occurs x y xs ys e h = omega (arith, e (λ z. text_eq x z), occurs_self x xs, h)

pub IsSorted-SameElements :
    (xs ys : List Text)
    → IsSorted text_less xs
    → IsSorted text_less ys
    → SameElements xs ys
    → xs ≡ ys
IsSorted-SameElements [] [] s t e = refl
IsSorted-SameElements [] (y ∷ ys) s t e = absurd (nil-ne-SameElements y ys e)
IsSorted-SameElements (x ∷ xs) [] s t e = absurd (nil-ne-SameElements x xs (λ p. sym (e p)))
IsSorted-SameElements (x ∷ xs) (y ∷ ys) s t e =
    let same : x ≡ y =
      text_less_antisym x y (first-least y x ys t (first-occurs x y xs ys e))
        (first-least x y xs s (first-occurs y x ys xs (λ p. sym (e p)))) in
    let e' : SameElements (y ∷ xs) (y ∷ ys) = rw same at e in
    rw same (ap (λ zs. y ∷ zs) (IsSorted-SameElements xs ys s.1 t.1 (tails y xs ys e')))

-- The sorted list of a list of texts depends on its elements only, not on their order.
pub insertion_sort-text :
    (xs ys : List Text)
    → SameElements xs ys
    → insertion_sort text_less xs ≡ insertion_sort text_less ys
insertion_sort-text xs ys e =
    IsSorted-SameElements (insertion_sort text_less xs) (insertion_sort text_less ys)
      (insertion_sort-IsSorted text_less text_less-IsOrder xs)
      (insertion_sort-IsSorted text_less text_less-IsOrder ys)
      (λ p.
        insertion_sort-SameElements text_less xs p
        ∙ (e p ∙ sym (insertion_sort-SameElements text_less ys p)))
