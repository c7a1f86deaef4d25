-- ===== src/Base/Sort.antt =====
-- Insertion sort on the test `less`, as the loops of monitor/cli.go run it, and what a sorted list is.
-- `sort.Slice` and `sort.Strings` promise no more than a sorted list with the same elements.
use Prim.Native.Nat.{ℕ, suc, ◌+◌}
use mathlib.Core.Path.{◌≡◌, refl, ◌∙◌}
use mathlib.Core.Logic.{inl, inr}
use mathlib.Core.Bool.{Bool, true, false}
use mathlib.Core.List.{List, [], ◌∷◌, ◌++◌}
use native.Mathlib.Omega.{arith}
use limiz.Base.Tests.{if◌then◌else◌, Bool-cases}
use limiz.Base.Lists.{All}

module _ {ℓ} {A : Type ℓ} (less : A → A → Bool) where
  -- The inner loop: `key` moves down in front of the larger ones of the sorted part, whose last
  -- element comes first here.
  unfoldable pub place : A → List A → List A
  place key [] = key ∷ []
  place key (x ∷ xs) = if less key x then x ∷ place key xs else key ∷ x ∷ xs

  -- the outer loop
  unfoldable pub sort_loop : List A → List A → List A
  unfolding place
  sort_loop done [] = done
  sort_loop done (x ∷ xs) = sort_loop (place x done) xs

-- a list written backwards
unfoldable pub backwards {ℓ} : {A : Type ℓ} → List A → List A
backwards [] = []
backwards (x ∷ xs) = backwards xs ++ x ∷ []

unfoldable pub insertion_sort {ℓ} : {A : Type ℓ} → (A → A → Bool) → List A → List A
unfolding sort_loop backwards
insertion_sort less xs = backwards (sort_loop less [] xs)

-- the number of elements that pass a test
unfoldable pub count_of {ℓ} : {A : Type ℓ} → (A → Bool) → List A → ℕ
count_of p [] = 0
count_of p (x ∷ xs) = if p x then suc (count_of p xs) else count_of p xs

-- each test finds as many elements in the one as in the other: the lists are equal up to order
abbrev pub SameElements {ℓ} : {A : Type ℓ} → List A → List A → Type ℓ
SameElements {A = A} xs ys = (p : A → Bool) → count_of p xs ≡ count_of p ys

module _ {ℓ} {A : Type ℓ} (less : A → A → Bool) where
  -- no element is less than one before it
  abbrev pub IsSorted : List A → Type ℓ
  IsSorted [] = Unit
  IsSorted (x ∷ xs) = All (λ y. less y x ≡ false) xs × IsSorted xs

-- what the test has to satisfy on the elements of a kind, as `<` on the floats that are numbers
pub record IsOrderOn {ℓ κ} {A : Type ℓ} (P : A → Type κ) (less : A → A → Bool) : Type (ℓ ⊔ κ) where
  pub asym : (x y : A) → P x → P y → less x y ≡ true → less y x ≡ false
  pub trans : (x y z : A) → P x → P y → P z → less y x ≡ false → less z y ≡ false → less z x ≡ false

-- the same on all elements
pub record IsOrder {ℓ} {A : Type ℓ} (less : A → A → Bool) : Type ℓ where
  pub asym : (x y : A) → less x y ≡ true → less y x ≡ false
  pub trans : (x y z : A) → less y x ≡ false → less z y ≡ false → less z x ≡ false

module _ {ℓ} {A : Type ℓ} where
  pub count_of-append :
      (p : A → Bool) (xs ys : List A) → count_of p (xs ++ ys) ≡ count_of p xs + count_of p ys
  unfolding count_of
  count_of-append p [] ys = omega arith
  count_of-append p (x ∷ xs) ys = ground (arith, count_of-append p xs ys)

  pub count_of-backwards : (p : A → Bool) (xs : List A) → count_of p (backwards xs) ≡ count_of p xs
  unfolding count_of backwards
  count_of-backwards p [] = refl
  count_of-backwards p (x ∷ xs) =
      count_of-append p (backwards xs) (x ∷ []) ∙ ground (arith, count_of-backwards p xs)

  All-concat {κ} : (P : A → Type κ) (xs : List A) (y : A) → All P xs → P y → All P (xs ++ y ∷ [])
  All-concat P [] y h k = (k, tt)
  All-concat P (x ∷ xs) y h k = (h.0, All-concat P xs y h.1 k)

  All-backwards {κ} : (P : A → Type κ) (xs : List A) → All P xs → All P (backwards xs)
  unfolding backwards
  All-backwards P [] h = tt
  All-backwards P (x ∷ xs) h = All-concat P (backwards xs) x (All-backwards P xs h.1) h.0

module _ {ℓ} {A : Type ℓ} (less : A → A → Bool) where
  count_of-place :
      (p : A → Bool) (key : A) (xs : List A)
      → count_of p (place less key xs) ≡ count_of p (key ∷ xs)
  unfolding count_of place
  count_of-place p key [] = refl
  count_of-place p key (x ∷ xs) = ground (arith, count_of-place p key xs)

  count_of-sort_loop :
      (p : A → Bool) (done xs : List A)
      → count_of p (sort_loop less done xs) ≡ count_of p done + count_of p xs
  unfolding count_of sort_loop
  count_of-sort_loop p done [] = omega arith
  count_of-sort_loop p done (x ∷ xs) =
      count_of-sort_loop p (place less x done) xs ∙ ground (arith, count_of-place p x done)

  -- Sorting keeps the elements.
  pub insertion_sort-SameElements : (xs : List A) → SameElements (insertion_sort less xs) xs
  unfolding insertion_sort
  insertion_sort-SameElements xs p =
      count_of-backwards p (sort_loop less [] xs)
      ∙ (count_of-sort_loop p [] xs ∙ (unfold count_of in omega arith))

module _ {ℓ} {A : Type ℓ} (less : A → A → Bool) where
  -- the sorted part of the loop
  abbrev IsDescending : List A → Type ℓ
  IsDescending [] = Unit
  IsDescending (x ∷ xs) = All (λ y. less x y ≡ false) xs × IsDescending xs

  All-place {κ} :
      (P : A → Type κ) (key : A) (xs : List A) → All P xs → P key → All P (place less key xs)
  unfolding place
  All-place P key [] h k = (k, tt)
  All-place P key (x ∷ xs) h k = elim (Bool-cases (less key x)) [
    | inl e ↦ rw (e, place) (h.0, All-place P key xs h.1 k)
    | inr e ↦ rw (e, place) (k, h)
  ]

  All-both {κ κ' κ''} :
      {P : A → Type κ} {Q : A → Type κ'} {R : A → Type κ''}
      → ((x : A) → P x → Q x → R x)
      → (xs : List A) → All P xs
      → All Q xs
      → All R xs
  All-both f [] h k = tt
  All-both f (x ∷ xs) h k = (f x h.0 k.0, All-both f xs h.1 k.1)

  module _ {κ} (P : A → Type κ) (o : IsOrderOn P less) where
    place-IsDescending :
        (key : A) (xs : List A)
        → P key
        → All P xs
        → IsDescending xs
        → IsDescending (place less key xs)
    unfolding place
    place-IsDescending key [] k ps h = (tt, tt)
    place-IsDescending key (x ∷ xs) k ps h = elim (Bool-cases (less key x)) [
      | inl e ↦
          rw (e, place)
            (
              All-place (λ y. less x y ≡ false) key xs h.0 (o.asym key x k ps.0 e),
              place-IsDescending key xs k ps.1 h.1,
            )
      | inr e ↦ rw (e, place) ((e, All-both (λ y p n. o.trans y x key p ps.0 k n e) xs ps.1 h.0), h)
    ]

    sort_loop-IsDescending :
        (done xs : List A)
        → All P done
        → All P xs
        → IsDescending done
        → IsDescending (sort_loop less done xs)
    unfolding sort_loop
    sort_loop-IsDescending done [] ds ps h = h
    sort_loop-IsDescending done (x ∷ xs) ds ps h =
        sort_loop-IsDescending (place less x done) xs (All-place P x done ds ps.0) ps.1
          (place-IsDescending x done ps.0 ds h)

  IsSorted-concat :
      (xs : List A) (y : A)
      → IsSorted less xs
      → All (λ x. less y x ≡ false) xs
      → IsSorted less (xs ++ y ∷ [])
  IsSorted-concat [] y h k = (tt, tt)
  IsSorted-concat (x ∷ xs) y h k =
      (All-concat (λ z. less z x ≡ false) xs y h.0 k.0, IsSorted-concat xs y h.1 k.1)

  backwards-IsSorted : (xs : List A) → IsDescending xs → IsSorted less (backwards xs)
  unfolding backwards
  backwards-IsSorted [] h = tt
  backwards-IsSorted (x ∷ xs) h =
      IsSorted-concat (backwards xs) x (backwards-IsSorted xs h.1) (All-backwards _ xs h.0)

  -- Sorting by an order on the elements of the list gives a sorted list.
  pub insertion_sort-IsSorted_on {κ} :
      (P : A → Type κ)
      → IsOrderOn P less
      → (xs : List A) → All P xs
      → IsSorted less (insertion_sort less xs)
  unfolding insertion_sort
  insertion_sort-IsSorted_on P o xs ps =
      backwards-IsSorted (sort_loop less [] xs) (sort_loop-IsDescending P o [] xs tt ps tt)

  All-Unit : (xs : List A) → All (λ x. Unit {0}) xs
  All-Unit [] = tt
  All-Unit (x ∷ xs) = (tt, All-Unit xs)

  -- Sorting by an order gives a sorted list.
  pub insertion_sort-IsSorted :
      IsOrder less → (xs : List A) → IsSorted less (insertion_sort less xs)
  insertion_sort-IsSorted o xs =
      insertion_sort-IsSorted_on (λ x. Unit {0})
        (record { asym = λ x y p q h. o.asym x y h; trans = λ x y z p q r h k. o.trans x y z h k })
        xs (All-Unit xs)

module _ {ℓ κ} {A : Type ℓ} (less : A → A → Bool) (P : A → Type κ) where
  All-sort_loop : (done xs : List A) → All P done → All P xs → All P (sort_loop less done xs)
  unfolding sort_loop
  All-sort_loop done [] h k = h
  All-sort_loop done (x ∷ xs) h k =
      All-sort_loop (place less x done) xs (All-place less P x done h k.0) k.1

  pub All-insertion_sort : (xs : List A) → All P xs → All P (insertion_sort less xs)
  unfolding insertion_sort
  All-insertion_sort xs h = All-backwards P (sort_loop less [] xs) (All-sort_loop [] xs tt h)
