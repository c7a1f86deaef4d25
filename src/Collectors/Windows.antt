-- ===== src/Collectors/Windows.antt =====
-- internal/collectors/ps_windows.go: the rows that a PowerShell command prints as JSON. What a command
-- prints is a function of the command, none where it fails; what `json.Unmarshal` reads in it is one too.
pub mod Cpu
pub mod Memory
pub mod Disk
pub mod Network
pub mod Filesystem
pub mod System
pub mod Exposition
use limiz.Base.{Text, Bool, Map, List, [], ◌∷◌, Option, none, some, String, codes, lookup, insert}
use mathlib.Core.List.{foldl}
use limiz.Strings.Trim.{trim_space}
use limiz.Floats.{Floats}
use limiz.Collectors.Metric.{Metric, gauge}

-- a value of `interface{}`, up to what is in an array or an object
pub data Value (F : Type 0) : Type 0 where
  null : Value F
  boolean : Bool → Value F
  number : F → Value F
  string : Text → Value F
  compound : Value F

-- an object with its fields in the order of the text, or something else
pub data Element (F : Type 0) : Type 0 where
  object : List (Text × Value F) → Element F
  null_element : Element F
  other_element : Element F

pub data Document (F : Type 0) : Type 0 where
  array : List (Element F) → Document F
  single : Element F → Document F

module _ {F : Type 0} where
  -- the last field of a name counts
  unfoldable pub row : List (Text × Value F) → Map (Value F)
  row fs = foldl (λ m f. insert f.0 f.1 m) [] fs

  -- an array as `[]map[string]interface{}`, where null is an empty map
  unfoldable pub rows_of : List (Element F) → Option (List (Map (Value F)))
  unfolding row
  rows_of [] = some []
  rows_of (object fs ∷ es) = elim (rows_of es) [ none ↦ none | some ms ↦ some (row fs ∷ ms) ]
  rows_of (null_element ∷ es) = elim (rows_of es) [ none ↦ none | some ms ↦ some ([] ∷ ms) ]
  rows_of (other_element ∷ es) = none

  -- an array, or one object as an array
  unfoldable pub rows : Document F → Option (List (Map (Value F)))
  rows (array es) = rows_of es
  rows (single (object fs)) = some (row fs ∷ [])
  rows (single null_element) = some []
  rows (single other_element) = none

-- what the collectors use of the machine: the output of a command, and the document in it
pub record Powershell (F : Type 0) : Type 0 where
  pub output : Text → Option Text
  pub unmarshal : Text → Option (Document F)

module _ {F : Type 0} (ps : Powershell F) where
  trimmed_json : Text → Option (List (Map (Value F)))
  unfolding rows
  trimmed_json [] = some []
  trimmed_json (c ∷ s) = elim (ps.unmarshal (c ∷ s)) [ none ↦ none | some document ↦ rows document ]

  unfoldable pub ps_json : Text → Option (List (Map (Value F)))
  unfolding trimmed_json
  ps_json command = elim (ps.output command) [
    | none ↦ none
    | some out ↦ trimmed_json (trim_space out)
  ]

unfoldable pub get_string : {F : Type 0} → Map (Value F) → String → Text
get_string m key = elim (lookup (codes key) m) [
  | none ↦ []
  | some v ↦ elim v [ string s ↦ s | _ ↦ [] ]
]

module _ (fl : Floats) where
  open fl use {F, of_nat}

  -- a number is a float64 once it has been read
  unfoldable pub get_float : Map (Value F) → String → F
  get_float m key = elim (lookup (codes key) m) [
    | none ↦ of_nat 0
    | some v ↦ elim v [ number x ↦ x | _ ↦ of_nat 0 ]
  ]

abbrev pub plain_metric : {F : Type 0} → Map Text → Text → String → String → F → Metric F
plain_metric labels type name help v = record {
  name = codes name;
  help = codes help;
  type = type;
  labels = labels;
  value = v;
}
