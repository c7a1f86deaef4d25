-- ===== src/Datas/Cache.antt =====
-- internal/datas/registry.go: the cache, in which each provider is collected by a goroutine of its own.
-- The collections of all of them are one sequence of steps, in whatever order they come.
pub mod Steps
pub mod Live
pub mod Loops
use limiz.Base.{
  Text, Map, List, [], ◌∷◌, ◌++◌, Bool, true, false, not, none, some, Option, if◌then◌else◌,
  text_eq, lookup, insert, ℤ, pos, ltb_ℤ,
}
use limiz.Time.Duration.{parse_duration, second}
use limiz.Datas.Json.{Json, null}
use limiz.Datas.Registry.{
  Collection, collected, failed, Provider, ProviderEntry, Registry, error_value, stamped,
}

pub record ProviderState : Type 0 where
  pub data_value : Json
  pub err_msg : Text
  pub ready : Bool

-- `refreshes` is what `OnRefresh` was called with: the error of each collection, or none.
pub record DatasCache (W : Type 0) : Type 0 where
  pub registry : Registry W
  pub global_interval : ℤ
  pub states : Map ProviderState
  pub refreshes : List (Option Text)

abbrev pub empty_state : ProviderState
empty_state = record { data_value = null; err_msg = []; ready = false }

-- the state that a collection leaves
unfoldable pub settle : Collection → ProviderState
settle (collected v) = record { data_value = v; err_msg = []; ready = true }
settle (failed msg) = record { data_value = null; err_msg = msg; ready = true }

unfoldable pub error_of : Collection → Option Text
error_of (collected v) = none
error_of (failed msg) = some msg

module _ {W : Type 0} where
  unfoldable pub empty_states : List (ProviderEntry W) → Map ProviderState → Map ProviderState
  unfolding insert
  empty_states [] states = states
  empty_states (e ∷ es) states = empty_states es (insert e.provider.name empty_state states)

  unfoldable pub new_datas_cache : Registry W → ℤ → DatasCache W
  unfolding empty_states
  new_datas_cache registry global_interval = record {
    registry = registry;
    global_interval = global_interval;
    states = empty_states registry.entries [];
    refreshes = [];
  }

  unfoldable pub resolve_interval : DatasCache W → Text → ℤ
  unfolding parse_duration text_eq
  resolve_interval dc override =
      if text_eq override [] then dc.global_interval else elim (parse_duration override) [
        | none ↦ dc.global_interval
        | some d ↦ if ltb_ℤ d (pos second) then dc.global_interval else d
      ]

  -- `collect`, for the goroutine of a provider
  unfoldable pub refresh : Provider W → DatasCache W × W → DatasCache W × W
  unfolding settle error_of insert
  refresh p (dc, w) =
      let (w', r) = p.collect w in
      (
        record dc {
          states = insert p.name (settle r) dc.states;
          refreshes = dc.refreshes ++ error_of r ∷ [];
        },
        w',
      )

  unfoldable pub refresh_all : List (Provider W) → DatasCache W × W → DatasCache W × W
  unfolding refresh
  refresh_all [] st = st
  refresh_all (p ∷ ps) st = refresh_all ps (refresh p st)

-- what `Get` answers: the status text, or a document
pub data Answer : Type 0 where
  initializing : Answer
  document : Map Json → Answer

-- the value of a state that is ready
unfoldable pub cached_value : ProviderState → Json
unfolding text_eq error_value
cached_value s = if not (text_eq s.err_msg []) then error_value s.err_msg else s.data_value

module _ {W : Type 0} where
  -- the loop over the entries; each has a state from `NewDatasCache` on
  unfoldable pub get_loop : Map ProviderState → List (ProviderEntry W) → Map Json → Answer
  unfolding cached_value lookup insert
  get_loop states [] result = document result
  get_loop states (e ∷ es) result = elim (lookup e.provider.name states) [
    | none ↦ initializing
    | some s ↦
        if not s.ready
        then initializing
        else get_loop states es (insert e.provider.name (cached_value s) result)
  ]

  unfoldable pub get : DatasCache W → Text → Text → Answer
  unfolding get_loop stamped
  get dc timestamp timezone = get_loop dc.states dc.registry.entries (stamped timestamp timezone)
