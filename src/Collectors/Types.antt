-- ===== src/Collectors/Types.antt =====
-- internal/collectors: the type that the name of a metric stands for.
use limiz.Base.{
  ◌≡◌, Text, Map, lookup, [], ◌∷◌, Option, none, some, codes, if◌then◌else◌, text_eq, All,
  Bool-cases, inl, inr,
}
use limiz.Strings.Affix.{has_suffix}
use limiz.Collectors.Metric.{Metric, gauge, counter}

-- Prometheus names a counter with `_total` at the end, and nothing else.
unfoldable pub type_of : Text → Text
unfolding has_suffix
type_of name = if has_suffix (codes "_total") name then counter else gauge

abbrev pub IsTyped : {F : Type 0} → Metric F → Type 0
IsTyped m = m.type ≡ type_of m.name

-- of the value, if there is one
abbrev pub OnSome : {V : Type 0} → (V → Type 0) → Option V → Type 0
OnSome P none = Unit
OnSome P (some v) = P v

-- what holds of every value of a map holds of one that is looked up
pub lookup-All :
    {V : Type 0} (P : V → Type 0) (k : Text) (m : Map V)
    → All (λ p. P p.1) m
    → OnSome P (lookup k m)
unfolding lookup
lookup-All P k [] h = tt
lookup-All P k ((j, w) ∷ m) h = elim (Bool-cases (text_eq j k)) [
  | inl e ↦ rw e h.0
  | inr e ↦ rw e (lookup-All P k m h.1)
]
