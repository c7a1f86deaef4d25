-- ===== src/Monitor/Summary/Percentile.antt =====
-- internal/monitor/cli.go: the 95th percentile of the durations.
use limiz.Base.{
  ℕ, zero, suc, ◌*◌, ◌/◌, ◌<◌, List, [], ◌∷◌, Bool, false, not, some, length, map, get_elem?, All,
  count_of, ◌≤◌, ◌+◌, true, IsOrderOn, insertion_sort-IsSorted_on, All-insertion_sort, sym,
  IsSorted, insertion_sort, insertion_sort-SameElements, length-SameElements, ◌≡◌, refl, arith,
  Bool-cases, inl, inr,
}
use mathlib.Core.Option.{some-injective}
use mathlib.Core.Path.{subst}
use limiz.Floats.{Floats}
use limiz.Monitor.Record.{Record}
use limiz.Monitor.Summary.{stats, p95_index}

module _ {ℓ} {A : Type ℓ} where
  get_elem?-some : (xs : List A) (i : ℕ) → i < length xs → (x : A) × (get_elem? xs i ≡ some x)
  get_elem?-some [] i h = absurd (omega (arith, h))
  get_elem?-some (x ∷ xs) zero h = (x, refl)
  get_elem?-some (x ∷ xs) (suc i) h = get_elem?-some xs i (omega (arith, h))

  All-get_elem? {κ} :
      (P : A → Type κ) (xs : List A) (i : ℕ) (x : A) → All P xs → get_elem? xs i ≡ some x → P x
  All-get_elem? P [] i x h e = absurd (ground arith)
  All-get_elem? P (y ∷ xs) zero x h e = subst P (some-injective y x e) h.0
  All-get_elem? P (y ∷ xs) (suc i) x h e = All-get_elem? P xs i x h.1 e

  module _ (less : A → A → Bool) where
    -- up to the place of an element, a sorted list has none that is larger
    count-IsSorted :
        (xs : List A) (i : ℕ) (p : A)
        → less p p ≡ false
        → IsSorted less xs
        → get_elem? xs i ≡ some p
        → i < count_of (λ d. not (less p d)) xs
    unfolding count_of
    count-IsSorted [] i p r s e = absurd (ground arith)
    count-IsSorted (x ∷ xs) zero p r s e =
        let n : less p x ≡ false = subst (λ z. less p z ≡ false) (sym (some-injective x p e)) r in
        ground arith
    count-IsSorted (x ∷ xs) (suc i) p r s e =
        let n : less p x ≡ false = All-get_elem? (λ y. less y x ≡ false) xs i p s.0 e in
        ground (arith, count-IsSorted xs i p r s.1 e)

    count-All :
        (p : A) (xs : List A)
        → All (λ d. less d p ≡ false) xs
        → length xs ≤ count_of (λ d. not (less d p)) xs
    unfolding count_of
    count-All p [] h = omega arith
    count-All p (x ∷ xs) h = let n = h.0 in ground (arith, count-All p xs h.1)

    -- and from there on none that is smaller
    count_above-IsSorted :
        (xs : List A) (i : ℕ) (p : A)
        → less p p ≡ false
        → IsSorted less xs
        → get_elem? xs i ≡ some p
        → length xs ≤ i + count_of (λ d. not (less d p)) xs
    unfolding count_of
    count_above-IsSorted [] i p r s e = omega arith
    count_above-IsSorted (x ∷ xs) zero p r s e =
        let same : x ≡ p = some-injective x p e in
        let n : less x p ≡ false = subst (λ z. less z p ≡ false) (sym same) r in
        let above = subst (λ z. All (λ y. less y z ≡ false) xs) same s.0 in
        ground (arith, count-All p xs above)
    count_above-IsSorted (x ∷ xs) (suc i) p r s e =
        ground (arith, count_above-IsSorted xs i p r s.1 e)

length-map {ℓ κ} :
    {A : Type ℓ} {B : Type κ} (f : A → B) (xs : List A) → length (map f xs) ≡ length xs
length-map f [] = refl
length-map f (x ∷ xs) = omega (arith, length-map f xs)

p95_index-bound : (n : ℕ) → 0 < n → p95_index n < n
p95_index-bound n h = ground arith

-- the guard on the index is never needed
p95_index-eq : (n : ℕ) → 0 < n → p95_index n ≡ n * 19 / 20
p95_index-eq n h = ground arith

All-map {ℓ κ ι} :
    {A : Type ℓ} {B : Type κ} (P : B → Type ι) (f : A → B) (xs : List A)
    → All (λ x. P (f x)) xs
    → All P (map f xs)
All-map P f [] h = tt
All-map P f (x ∷ xs) h = (h.0, All-map P f xs h.1)

module _ (fl : Floats) (max_float zero_float : fl.F) (is_number : fl.F → Bool)
    (o : IsOrderOn (λ x. is_number x ≡ true) fl.less) where
  open fl use {F, less}

  abbrev IsNumber : F → Type 0
  IsNumber x = is_number x ≡ true

  irreflexive : (x : F) → IsNumber x → less x x ≡ false
  irreflexive x n = elim (Bool-cases (less x x)) [ inl e ↦ o.asym x x n n e | inr e ↦ e ]

  -- the bounds on both sides
  abbrev IsPercentile : List F → F → Type 0
  IsPercentile ds p =
      (length ds * 19 / 20 < count_of (λ d. not (less p d)) ds)
      × (length ds ≤ length ds * 19 / 20 + count_of (λ d. not (less d p)) ds)

  module _ (ds : List F) (numbers : All IsNumber ds) (h : 0 < length ds) where
    length-sorted : length (insertion_sort less ds) ≡ length ds
    length-sorted =
        length-SameElements (insertion_sort less ds) ds (insertion_sort-SameElements less ds)

    percentile : (p : F) × (get_elem? (insertion_sort less ds) (p95_index (length ds)) ≡ some p)
    percentile =
        get_elem?-some (insertion_sort less ds) (p95_index (length ds))
          (rw length-sorted (p95_index-bound (length ds) h))

    shares :
        (p : F)
        → get_elem? (insertion_sort less ds) (p95_index (length ds)) ≡ some p
        → IsPercentile ds p
    shares p found =
        let sorted = insertion_sort less ds in
        let i = p95_index (length ds) in
        let s = insertion_sort-IsSorted_on less IsNumber o ds numbers in
        let r =
          irreflexive p (
            All-get_elem? IsNumber sorted i p (All-insertion_sort less IsNumber ds numbers)
              found) in
        (
          omega (
            arith,
            p95_index-eq (length ds) h,
            insertion_sort-SameElements less ds (λ d. not (less p d)),
            count-IsSorted less sorted i p r s found,
          ),
          omega (
            arith,
            p95_index-eq (length ds) h,
            length-sorted,
            insertion_sort-SameElements less ds (λ d. not (less d p)),
            count_above-IsSorted less sorted i p r s found,
          ),
        )

  -- Where there are records, their durations are numbers, and `<` orders the numbers, as it does the floats that
  -- are not NaN, the summary's 95th percentile is defined and bounds the `n` durations on both sides: more than
  -- `n * 19 / 20` of them, rounded down, are no larger, and all but `n * 19 / 20` at most are no smaller.
  pub stats-p95 :
      (recs : List (Record F))
      → All (λ r. is_number r.duration_ms ≡ true) recs
      → 0 < length recs
      → (p : F) × ((stats fl max_float zero_float recs).p95 ≡ some p)
        × (length recs * 19 / 20 < count_of (λ d. not (less p d)) (map (λ r. r.duration_ms) recs))
        × (length recs
            ≤ length recs * 19 / 20
              + count_of (λ d. not (less d p)) (map (λ r. r.duration_ms) recs))
  unfolding stats
  stats-p95 recs numbers h =
      let ds = map (λ r. r.duration_ms) recs in
      let len : length ds ≡ length recs = length-map (λ r. r.duration_ms) recs in
      let h' : 0 < length ds = rw len h in
      let ns = All-map IsNumber (λ (r : Record F). r.duration_ms) recs numbers in
      let (p, found) = percentile ds ns h' in
      let bounds = shares ds ns h' p found in (p, found, rw len at bounds.0, rw len at bounds.1)
