-- ===== src/Base/SortElements.antt =====
-- What a sorted list and the same elements give, and what is promised of a sort.
use mathlib.Core.Path.{◌≡◌, refl}
use mathlib.Core.Logic.{inl, inr}
use mathlib.Core.Bool.{Bool, true, false}
use mathlib.Core.List.{List, [], ◌∷◌, ◌++◌}
use native.Mathlib.Omega.{arith}
use limiz.Base.Tests.{Bool-cases}
use limiz.Base.Lists.{All, length}
use limiz.Base.Sort.{
  insertion_sort, insertion_sort-IsSorted, insertion_sort-SameElements, count_of, SameElements,
  IsSorted, IsOrder,
}

module _ {ℓ} {A : Type ℓ} where
  pub count_of-all : (xs : List A) → count_of (λ x. true) xs ≡ length xs
  unfolding count_of
  count_of-all [] = refl
  count_of-all (x ∷ xs) = omega (arith, count_of-all xs)

  pub length-SameElements : (xs ys : List A) → SameElements xs ys → length xs ≡ length ys
  length-SameElements xs ys s = omega (arith, s (λ x. true), count_of-all xs, count_of-all ys)

module _ {ℓ} {A : Type ℓ} (less : A → A → Bool) where
  All-split :
      (x : A) (xs ys : List A)
      → All (λ y. less y x ≡ false) (xs ++ ys)
      → All (λ y. less y x ≡ false) ys
  All-split x [] ys h = h
  All-split x (z ∷ xs) ys h = All-split x xs ys h.1

  -- in a sorted list, nothing behind is less than something in front
  pub IsSorted-split :
      (xs ys : List A) → IsSorted less (xs ++ ys) → All (λ x. All (λ y. less y x ≡ false) ys) xs
  IsSorted-split [] ys h = tt
  IsSorted-split (x ∷ xs) ys h = (All-split x xs ys h.0, IsSorted-split xs ys h.1)

-- What `sort.Slice` and `sort.Strings` promise of a list and a strict order on it. The order of equal elements
-- is left open.
pub record IsSort {ℓ} {A : Type ℓ} (less : A → A → Bool) (sort : List A → List A) : Type ℓ where
  pub sorted : (xs : List A) → IsSorted less (sort xs)
  pub same : (xs : List A) → SameElements (sort xs) xs

module _ {ℓ} {A : Type ℓ} where
  pub insertion_sort-IsSort :
      (less : A → A → Bool) → IsOrder less → IsSort less (insertion_sort less)
  insertion_sort-IsSort less o = record {
    sorted = insertion_sort-IsSorted less o;
    same = insertion_sort-SameElements less;
  }

  pub count_of-eq-zero :
      (p : A → Bool) (xs : List A) → count_of p xs ≡ 0 → All (λ x. p x ≡ false) xs
  unfolding count_of
  count_of-eq-zero p [] h = tt
  count_of-eq-zero p (x ∷ xs) h = elim (Bool-cases (p x)) [
    | inl e ↦ absurd (ground arith)
    | inr e ↦ (e, count_of-eq-zero p xs (ground arith))
  ]
