-- ===== src/Datas/Registry.antt =====
-- internal/datas/registry.go: the providers, and the document that is collected live.
pub mod Entries
use limiz.Base.{
  Text, Map, List, [], ◌∷◌, ◌++◌, Bool, true, false, ◌&&◌, none, some, Option, if◌then◌else◌, codes,
  insert, map, select, ◌≡◌, ◌∙◌, refl, ap, arith, Bool-cases, Option-cases, inl, inr,
}
use limiz.Datas.Json.{Json, JsonFields, string, object, no_field, field}
use limiz.Datas.Category.{CategoryConfig}

-- what a provider's `Collect` returns
pub data Collection : Type 0 where
  collected : Json → Collection
  failed : Text → Collection

-- `cache_interval` is none for a provider without the optional interface.
pub record Provider (W : Type 0) : Type 0 where
  pub name : Text
  pub collect : W → W × Collection
  pub cache_interval : Option Text

pub record CategoriesConfig : Type 0 where
  pub services : Option CategoryConfig
  pub packages : Option CategoryConfig
  pub updates : Option CategoryConfig
  pub disk_health : Option CategoryConfig
  pub hardware : Option CategoryConfig
  pub os : Option CategoryConfig
  pub ports : Option CategoryConfig

unfoldable pub cat_enabled : Option CategoryConfig → Bool
cat_enabled none = false
cat_enabled (some c) = c.enabled

unfoldable pub cat_interval : Option CategoryConfig → Text
cat_interval none = []
cat_interval (some c) = c.cache_interval

pub record ProviderEntry (W : Type 0) : Type 0 where
  pub provider : Provider W
  pub cache_interval : Text

pub record Registry (W : Type 0) : Type 0 where
  pub entries : List (ProviderEntry W)

-- the providers of the program, one for each category
pub record Providers (W : Type 0) : Type 0 where
  pub services : Provider W
  pub packages : Provider W
  pub updates : Provider W
  pub disk_health : Provider W
  pub hardware : Provider W
  pub os : Provider W
  pub ports : Provider W

module _ {W : Type 0} where
  add_category : Option CategoryConfig → Provider W → Registry W → Registry W
  unfolding cat_enabled cat_interval
  add_category c p r =
      if cat_enabled c
      then record {
        entries = r.entries ++ record { provider = p; cache_interval = cat_interval c } ∷ [];
      }
      else r

  unfoldable pub new_registry : Providers W → CategoriesConfig → Registry W
  unfolding add_category
  new_registry ps cats =
      let r : Registry W = record { entries = [] } in
      let r = add_category cats.services ps.services r in
      let r = add_category cats.packages ps.packages r in
      let r = add_category cats.updates ps.updates r in
      let r = add_category cats.disk_health ps.disk_health r in
      let r = add_category cats.hardware ps.hardware r in
      let r = add_category cats.os ps.os r in add_category cats.ports ps.ports r

  unfoldable pub register_plugin : Registry W → Provider W → Registry W
  register_plugin r p = record {
    entries =
        r.entries
        ++ record {
          provider = p;
          cache_interval = elim p.cache_interval [ none ↦ [] | some interval ↦ interval ];
        }
          ∷ [];
  }

-- `map[string]string{"error": msg}`
unfoldable pub error_value : Text → Json
error_value msg = object (field (codes "error") (string msg) no_field)

unfoldable pub live_value : Collection → Json
unfolding error_value
live_value (collected v) = v
live_value (failed msg) = error_value msg

-- the two entries that stand in each document
unfoldable pub stamped : Text → Text → Map Json
unfolding insert
stamped timestamp timezone =
    insert (codes "timezone") (string timezone) (insert (codes "timestamp") (string timestamp) [])

module _ {W : Type 0} where
  unfoldable pub live_loop : List (ProviderEntry W) → W → Map Json → W × Map Json
  unfolding live_value insert
  live_loop [] w result = (w, result)
  live_loop (e ∷ es) w result =
      let (w', r) = e.provider.collect w in
      live_loop es w' (insert e.provider.name (live_value r) result)

  -- `CollectJSON`, as the map that it writes
  unfoldable pub collect_json : Registry W → Text → Text → W → W × Map Json
  unfolding live_loop stamped
  collect_json r timestamp timezone w = live_loop r.entries w (stamped timestamp timezone)
