-- ===== src/Base/Maps.antt =====
-- Go maps with string keys as association lists, in the order in which the entries are visited.
use mathlib.Core.Path.{◌≡◌, refl, sym}
use mathlib.Core.Logic.{◌≢◌}
use mathlib.Core.List.{List, [], ◌∷◌, ◌++◌}
use mathlib.Core.Option.{Option, none, some}
use native.Mathlib.Omega.{arith}
use limiz.Base.Tests.{Text, text_eq, text_eq_iff, ne→text_eq, if◌then◌else◌}

abbrev pub Map {ℓ} : Type ℓ → Type ℓ
Map V = List (Text × V)

module _ {ℓ} {V : Type ℓ} where
  -- `v, ok := m[k]`
  unfoldable pub lookup : Text → Map V → Option V
  lookup k [] = none
  lookup k ((j, v) ∷ m) = if text_eq j k then some v else lookup k m

  -- `m[k] = v`
  unfoldable pub insert : Text → V → Map V → Map V
  insert k v [] = (k, v) ∷ []
  insert k v ((j, w) ∷ m) = if text_eq j k then (k, v) ∷ m else (j, w) ∷ insert k v m

  pub lookup-insert :
      (k j : Text) (v : V) (m : Map V)
      → lookup j (insert k v m) ≡ (if text_eq k j then some v else lookup j m)
  unfolding lookup insert
  lookup-insert k j v [] = refl
  lookup-insert k j v ((i, w) ∷ m) =
      ground (arith, text_eq_iff k j, text_eq_iff i k, text_eq_iff i j, lookup-insert k j v m)

-- `m[k]` where a missing key gives the zero value "".
unfoldable pub lookup_text : Text → Map Text → Text
lookup_text k m = elim (lookup k m) [ none ↦ [] | some v ↦ v ]

-- no entry has the key
abbrev pub Fresh {ℓ} : {V : Type ℓ} → Text → Map V → Type 0
Fresh k [] = Unit
Fresh k ((j, v) ∷ m) = (j ≢ k) × Fresh k m

-- every key stands once
abbrev pub IsMap {ℓ} : {V : Type ℓ} → Map V → Type 0
IsMap [] = Unit
IsMap ((k, v) ∷ m) = Fresh k m × IsMap m

module _ {ℓ} {V : Type ℓ} where
  pub insert-Fresh : (k : Text) (v : V) (m : Map V) → Fresh k m → insert k v m ≡ m ++ (k, v) ∷ []
  unfolding insert
  insert-Fresh k v [] h = refl
  insert-Fresh k v ((j, w) ∷ m) h = rw (ne→text_eq j k h.0) (rw (insert-Fresh k v m h.1))

  pub Fresh-concat :
      (k j : Text) (v : V) (m : Map V) → Fresh k m → j ≢ k → Fresh k (m ++ (j, v) ∷ [])
  Fresh-concat k j v [] h n = (n, tt)
  Fresh-concat k j v ((i, w) ∷ m) h n = (h.0, Fresh-concat k j v m h.1 n)

  -- no entry of the first map has a key of the second
  abbrev pub Disjoint : Map V → Map V → Type 0
  Disjoint m [] = Unit
  Disjoint m ((k, v) ∷ n) = Fresh k m × Disjoint m n

  pub Disjoint-nil : (n : Map V) → Disjoint [] n
  Disjoint-nil [] = tt
  Disjoint-nil ((k, v) ∷ n) = (tt, Disjoint-nil n)

  pub Disjoint-concat :
      (k : Text) (v : V) (m n : Map V) → Disjoint m n → Fresh k n → Disjoint (m ++ (k, v) ∷ []) n
  Disjoint-concat k v m [] d f = tt
  Disjoint-concat k v m ((j, w) ∷ n) d f =
      (Fresh-concat j k v m d.0 (λ e. f.0 (sym e)), Disjoint-concat k v m n d.1 f.1)

pub lookup_text-insert :
    (k j : Text) (v : Text) (m : Map Text)
    → lookup_text j (insert k v m) ≡ (if text_eq k j then v else lookup_text j m)
unfolding lookup_text
lookup_text-insert k j v m = ground (arith, lookup-insert k j v m)
