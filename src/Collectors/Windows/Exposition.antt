-- ===== src/Collectors/Windows/Exposition.antt =====
-- What becomes of the labels of the Windows collectors in the text that internal/collectors/registry.go
-- writes, for a reader of the Prometheus format: a value ends at the first quote that no backslash escapes.
pub mod Names
pub mod Drives
use limiz.Base.{
  ◌≡◌, ◌≢◌, ◌∙◌, ◌||◌, refl, ap, ℕ, Bool, zero, suc, ◌+◌, ◌<◌, Text, List, [], ◌∷◌, ◌++◌,
  append_assoc, length, drop, drop-length-append, Option, none, some, true, false, if◌then◌else◌,
  ◌==◌, All, arith,
}
use limiz.Strings.Affix.{Lacks}
use limiz.Collectors.Registry.{label_part}

-- the character that an escape stands for
unfoldable pub unescaped : ℕ → Option ℕ
unescaped c = if c == b'n' then some b'\n' else if c == b'"' || c == b'\\' then some c else none

unfoldable pub prepend : ℕ → Option (Text × Text) → Option (Text × Text)
prepend c none = none
prepend c (some (v, rest)) = some (c ∷ v, rest)

-- the value behind an opening quote, and what follows its closing quote; the flag tells that a backslash
-- stands in front
unfoldable pub read_from : Bool → Text → Option (Text × Text)
unfolding unescaped prepend
read_from escaped [] = none
read_from false (c ∷ s) =
    let plain = prepend c (read_from false s) in
    let escape = read_from true s in
    if c == b'"'
    then some ([], s)
    else if c == b'\n'
    then none
    else if c == b'\\'
    then escape
    else plain
read_from true (c ∷ s) =
    let after = read_from false s in elim (unescaped c) [ none ↦ none | some e ↦ prepend e after ]

unfoldable pub read_value : Text → Option (Text × Text)
unfolding read_from
read_value = read_from false

-- a label that the format's reader finds as it is, whatever follows it
unfoldable pub IsReadable : Text × Text → Type 0
unfolding read_value
IsReadable (k, v) =
    (rest : Text)
    → read_value (drop (suc (suc (length k))) (label_part (k, v) ++ rest)) ≡ some (v, rest)

-- behind the key and its two characters stand the value, its quote and the rest
pub drop-label_part :
    (k v rest : Text) → drop (suc (suc (length k))) (label_part (k, v) ++ rest) ≡ v ++ b'"' ∷ rest
unfolding label_part
drop-label_part [] v rest = append_assoc v (b'"' ∷ []) rest
drop-label_part (c ∷ k) v rest = drop-label_part k v rest

-- no character that ends a value or begins an escape
pub record IsPlain (v : Text) : Type 0 where
  pub no_quote : Lacks b'"' v
  pub no_backslash : Lacks b'\\' v
  pub no_break : Lacks b'\n' v

read_from-plain :
    (c : ℕ) (s : Text)
    → c ≢ b'"'
    → c ≢ b'\\'
    → c ≢ b'\n'
    → read_from false (c ∷ s) ≡ prepend c (read_from false s)
unfolding read_from
read_from-plain c s q b n = ground arith

read_value-plain :
    (v rest : Text)
    → Lacks b'"' v
    → Lacks b'\\' v
    → Lacks b'\n' v
    → read_from false (v ++ b'"' ∷ rest) ≡ some (v, rest)
unfolding read_from prepend
read_value-plain [] rest q b n = refl
read_value-plain (c ∷ v) rest q b n =
    read_from-plain c (v ++ b'"' ∷ rest) q.0 b.0 n.0
    ∙ ap (prepend c) (read_value-plain v rest q.1 b.1 n.1)

pub plain-IsReadable : (k v : Text) → IsPlain v → IsReadable (k, v)
unfolding IsReadable read_value
plain-IsReadable k v p rest =
    ap read_value (drop-label_part k v rest)
    ∙ read_value-plain v rest p.no_quote p.no_backslash p.no_break

-- what is added for a row under a condition, and for the rows of a command
module _ {A : Type 0} (P : A → Type 0) where
  pub All-unless : (b : Bool) (xs : List A) → All P xs → All P (if b then [] else xs)
  All-unless true xs h = tt
  All-unless false xs h = h

  pub All-of_rows :
      {R : Type 0} (f : List R → List A)
      → ((rs : List R) → All P (f rs))
      → (r : Option (List R)) → All P (elim r [ none ↦ [] | some rs ↦ f rs ])
  All-of_rows f h none = tt
  All-of_rows f h (some rs) = h rs
