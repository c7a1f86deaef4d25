-- ===== src/Datas/Category.antt =====
-- internal/datas/registry.go: a category's setting, which JSON writes as a boolean or as an object.
use limiz.Base.{
  Text, [], Bool, false, none, some, Option, if◌then◌else◌, text_eq, text_eq→eq, codes, ◌≡◌, refl,
  sym, ap, Bool-cases, inl, inr,
}
use limiz.Strings.Case.{fold_name}
use limiz.Datas.Json.{
  Json, JsonFields, null, boolean, number, string, array, object, no_field, field,
}

pub record CategoryConfig : Type 0 where
  pub enabled : Bool
  pub cache_interval : Text

-- `json.Unmarshal` into a bool: null leaves it as it is
unmarshal_bool : Json → Option Bool
unmarshal_bool null = some false
unmarshal_bool (boolean b) = some b
unmarshal_bool (number n) = none
unmarshal_bool (string s) = none
unmarshal_bool (array js) = none
unmarshal_bool (object fs) = none

-- the two fields of the object; a value of another type is an error, and null changes nothing
set_enabled : Json → CategoryConfig → Option CategoryConfig
set_enabled (boolean b) c = some (record c { enabled = b })
set_enabled null c = some c
set_enabled (number n) c = none
set_enabled (string s) c = none
set_enabled (array js) c = none
set_enabled (object fs) c = none

set_interval : Json → CategoryConfig → Option CategoryConfig
set_interval (string s) c = some (record c { cache_interval = s })
set_interval null c = some c
set_interval (boolean b) c = none
set_interval (number n) c = none
set_interval (array js) c = none
set_interval (object fs) c = none

-- a field by its name, whatever the case; other fields are passed over
set_field : Text → Json → CategoryConfig → Option CategoryConfig
unfolding set_enabled set_interval fold_name text_eq
set_field name v c =
    if text_eq (fold_name name) (codes "enabled")
    then set_enabled v c
    else if text_eq (fold_name name) (codes "cache_interval")
    then set_interval v c
    else some c

unmarshal_fields : JsonFields → CategoryConfig → Option CategoryConfig
unfolding set_field
unmarshal_fields no_field c = some c
unmarshal_fields (field name v fs) c = elim (set_field name v c) [
  | none ↦ none
  | some c' ↦ unmarshal_fields fs c'
]

unmarshal_object : Json → Option CategoryConfig
unfolding unmarshal_fields
unmarshal_object (object fs) = unmarshal_fields fs (record { enabled = false; cache_interval = [] })
unmarshal_object null = some (record { enabled = false; cache_interval = [] })
unmarshal_object (boolean b) = none
unmarshal_object (number n) = none
unmarshal_object (string s) = none
unmarshal_object (array js) = none

-- `UnmarshalJSON`, into `c`
unfoldable pub unmarshal_category : Json → CategoryConfig → Option CategoryConfig
unfolding unmarshal_bool unmarshal_object
unmarshal_category v c = elim (unmarshal_bool v) [
  | some b ↦ some (record c { enabled = b })
  | none ↦ unmarshal_object v
]

unfoldable pub marshal_category : CategoryConfig → Json
unfolding text_eq
marshal_category c =
    if text_eq c.cache_interval []
    then boolean c.enabled
    else object (
        field (codes "enabled") (boolean c.enabled)
          (field (codes "cache_interval") (string c.cache_interval) no_field))

-- A setting that is written is read back as it was, in either form, into a fresh one.
pub unmarshal_category-marshal_category :
    (c : CategoryConfig)
    → unmarshal_category (marshal_category c) (record { enabled = false; cache_interval = [] })
      ≡ some c
unfolding unmarshal_category marshal_category unmarshal_fields
unmarshal_category-marshal_category c = elim (Bool-cases (text_eq c.cache_interval [])) [
  | inl e ↦
      rw (marshal_category, e)
        (ap (λ s. some (record c { cache_interval = s })) (sym (text_eq→eq c.cache_interval [] e)))
  | inr e ↦ rw (marshal_category, e) refl
]
