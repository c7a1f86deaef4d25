-- ===== src/Datas/Windows.antt =====
-- internal/datas/providers_windows.go: PowerShell commands, and how their JSON is read into structs. What a
-- command does is a parameter, and so is the syntax of JSON.
pub mod Services
pub mod Packages
pub mod DiskHealth
pub mod Hardware
pub mod NetPorts
pub mod Single
use limiz.Base.{
  ℕ, String, negsuc, ◌^◌, Text, List, [], ◌∷◌, ◌++◌, Bool, true, false, ◌&&◌, Option, none, some,
  codes, if◌then◌else◌, ltb, leb, ◌==◌, text_eq, ℤ, pos, neg,
}
use limiz.Strings.Trim.{trim_space}
use limiz.Strings.Case.{fold_name}
use limiz.Strconv.Decimal.{parse_nat}
use limiz.Datas.Json.{
  Json, null, boolean, number, string, array, object, JsonItems, no_item, item, JsonFields,
  no_field, field,
}
use limiz.Datas.Linux.{Result, ok, fail}
use limiz.Datas.Ports.{atoi}

-- how `cmd.Output()` ended: the output, or the text of the error and the standard error of an `ExitError`
pub data Ended : Type 0 where
  printed : Text → Ended
  exited : Text → Text → Ended

pub record Powershell : Type 0 where
  pub run : Text → Ended
  pub parse_json : Text → Option Json
  -- the message of `json.Unmarshal` on what a command has printed
  pub unmarshal_error : Text → Text → Text

unfoldable pub error_text : Text → Text → Text
error_text err [] = err
error_text err (c ∷ stderr) = err ++ (codes ": " ++ trim_space (c ∷ stderr))

-- a field of type string, and whether the value is one
unfoldable pub set_text : Json → Text → Text × Bool
set_text (string s) old = (s, true)
set_text null old = (old, true)
set_text _ old = (old, false)

unfoldable pub int_of : Text → Option ℤ
int_of [] = none
int_of (c ∷ s) =
    if c == b'-'
    then elim (parse_nat s) [ none ↦ none | some n ↦ if leb n (2 ^ 63) then some (neg n) else none ]
    else elim (parse_nat (c ∷ s)) [
      | none ↦ none
      | some n ↦ if ltb n (2 ^ 63) then some (pos n) else none
    ]

-- a field of type int
unfoldable pub set_int : Json → ℤ → ℤ × Bool
unfolding int_of
set_int (number s) old = elim (int_of s) [ none ↦ (old, false) | some n ↦ (n, true) ]
set_int null old = (old, true)
set_int _ old = (old, false)

-- a field of type uint64
unfoldable pub set_uint : Json → ℕ → ℕ × Bool
set_uint (number s) old = elim (parse_nat s) [
  | none ↦ (old, false)
  | some n ↦ if ltb n (2 ^ 64) then (n, true) else (old, false)
]
set_uint null old = (old, true)
set_uint _ old = (old, false)

module _ {R : Type 0} (zero_value : R) (set : Text → Json → R → R × Bool) where
  -- the fields in the order of the text; an error does not end the reading
  unfoldable pub read_fields : JsonFields → R → R × Bool
  read_fields no_field r = (r, true)
  read_fields (field name v fs) r =
      let (r', good) = set (fold_name name) v r in
      let (r'', rest_good) = read_fields fs r' in (r'', good && rest_good)

  unfoldable pub read_struct : Json → R × Bool
  unfolding read_fields
  read_struct (object fs) = read_fields fs zero_value
  read_struct null = (zero_value, true)
  read_struct _ = (zero_value, false)

  unfoldable pub read_items : JsonItems → List R × Bool
  unfolding read_struct
  read_items no_item = ([], true)
  read_items (item v vs) =
      let (r, good) = read_struct v in
      let (rs, rest_good) = read_items vs in (r ∷ rs, good && rest_good)

  unfoldable pub read_slice : Json → List R × Bool
  unfolding read_items
  read_slice (array vs) = read_items vs
  read_slice null = ([], true)
  read_slice _ = ([], false)

  -- `psJSON` into a slice: what is read, and the error
  unfoldable pub ps_json : Powershell → Text → List R × Option Text
  ps_json ps script = elim (ps.run script) [
    | exited err stderr ↦ ([], some (error_text err stderr))
    | printed out ↦ elim (ps.parse_json out) [
      | none ↦ ([], some (ps.unmarshal_error script out))
      | some v ↦
          let (rs, good) = read_slice v in
          (rs, if good then none else some (ps.unmarshal_error script out))
    ]
  ]

-- the error with its prefix, or what is made of the rows
unfoldable pub wrapped : {R A : Type 0} → Text → (List R → A) → List R × Option Text → Result A
wrapped prefix f (rs, none) = ok (f rs)
wrapped prefix f (rs, some err) = fail (prefix ++ (codes ": " ++ err))

unfoldable pub ps_string : Powershell → Text → Text
ps_string ps script = elim (ps.run script) [ exited err stderr ↦ [] | printed out ↦ trim_space out ]

unfoldable pub ps_int : Powershell → Text → ℤ
ps_int ps script = elim (ps.run script) [
  | exited err stderr ↦ pos 0
  | printed out ↦ atoi (trim_space out)
]

-- the cases of a switch on a code, and its default
unfoldable pub code_name : ℤ → List (ℕ × String) → String → Text
code_name (pos n) ((k, s) ∷ cases) default =
    if n == k then codes s else code_name (pos n) cases default
code_name _ _ default = codes default
