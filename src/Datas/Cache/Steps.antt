-- ===== src/Datas/Cache/Steps.antt =====
-- internal/datas/registry.go: the cache after a sequence of collections.
use limiz.Base.{
  Text, Map, List, [], ◌∷◌, Bool, true, false, not, none, some, Option, if◌then◌else◌, map, ◌&&◌,
  text_eq, text_eq_refl, lookup, insert, lookup-insert, All, ℤ, ◌≡◌, ◌∙◌, refl, sym, ap, arith,
  Bool-cases, Option-cases, inl, inr,
}
use mathlib.Core.Option.{some-injective, some-ne-none}
use limiz.Disk.{is_among}
use limiz.Datas.Json.{Json}
use limiz.Datas.Registry.{Collection, collected, failed, Provider, ProviderEntry, Registry, stamped}
use limiz.Datas.Cache.{
  ProviderState, DatasCache, Answer, initializing, document, empty_state, empty_states,
  new_datas_cache, settle, refresh, refresh_all, cached_value, get_loop, get,
}

module _ {W : Type 0} where
  abbrev pub names : List (Provider W) → List Text
  names [] = []
  names (p ∷ ps) = p.name ∷ names ps

-- whether a state is ready, none where there is no state
unfoldable pub ready_of : Text → Map ProviderState → Option Bool
unfolding lookup
ready_of k states = elim (lookup k states) [ none ↦ none | some s ↦ some s.ready ]

ready_of-insert :
    (k j : Text) (s : ProviderState) (states : Map ProviderState)
    → ready_of k (insert j s states) ≡ (if text_eq j k then some s.ready else ready_of k states)
unfolding ready_of
ready_of-insert k j s states = elim (Bool-cases (text_eq j k)) [
  | inl e ↦ rw (ready_of, lookup-insert j k s states, e) refl
  | inr e ↦ rw (ready_of, lookup-insert j k s states, e) refl
]

pub settle-ready : (c : Collection) → (settle c).ready ≡ true
unfolding settle
settle-ready (collected v) = refl
settle-ready (failed msg) = refl

module _ {W : Type 0} where
  pub refresh_all-registry :
      (ps : List (Provider W)) (st : DatasCache W × W)
      → (refresh_all ps st).0.registry ≡ st.0.registry
  unfolding refresh_all refresh
  refresh_all-registry [] st = refl
  refresh_all-registry (p ∷ ps) st = refresh_all-registry ps (refresh p st)

  pub refresh-ready :
      (k : Text) (p : Provider W) (st : DatasCache W × W)
      → ready_of k (refresh p st).0.states
        ≡ (if text_eq p.name k then some true else ready_of k st.0.states)
  unfolding refresh
  refresh-ready k p st =
      ready_of-insert k p.name (settle (p.collect st.1).1) st.0.states
      ∙ rw (settle-ready (p.collect st.1).1) refl

  -- the collected providers are ready, and the others are as before
  refresh_all-ready :
      (k : Text) (ps : List (Provider W)) (st : DatasCache W × W)
      → ready_of k (refresh_all ps st).0.states
        ≡ (if is_among k (names ps) then some true else ready_of k st.0.states)
  unfolding refresh_all is_among
  refresh_all-ready k [] st = refl
  refresh_all-ready k (p ∷ ps) st =
      refresh_all-ready k ps (refresh p st) ∙ ground (arith, refresh-ready k p st)

  empty_states-ready :
      (k : Text) (es : List (ProviderEntry W)) (states : Map ProviderState)
      → ready_of k (empty_states es states)
        ≡ (if is_among k (names (map (λ e. e.provider) es)) then some false else ready_of k states)
  unfolding empty_states is_among
  empty_states-ready k [] states = refl
  empty_states-ready k (e ∷ es) states =
      empty_states-ready k es (insert e.provider.name empty_state states)
      ∙ ground (arith, ready_of-insert k e.provider.name empty_state states)

abbrev pub is_initializing : Answer → Bool
is_initializing initializing = true
is_initializing (document d) = false

module _ {W : Type 0} where
  -- whether each entry's provider is among those that have been collected
  unfoldable pub all_collected : List Text → List (ProviderEntry W) → Bool
  unfolding is_among
  all_collected done [] = true
  all_collected done (e ∷ es) = is_among e.provider.name done && all_collected done es

  get_loop-ready :
      (states : Map ProviderState) (done : List Text) (es : List (ProviderEntry W))
      (result : Map Json)
      → All (λ e. ready_of e.provider.name states ≡ some (is_among e.provider.name done)) es
      → is_initializing (get_loop states es result) ≡ not (all_collected done es)
  unfolding get_loop all_collected ready_of
  get_loop-ready states done [] result h = refl
  get_loop-ready states done (e ∷ es) result h =
      elim (Option-cases (lookup e.provider.name states)) [
        | inl o ↦ absurd (some-ne-none _ (sym (rw (ready_of, o) at h.0)))
        | inr (s, o) ↦
            let r : s.ready ≡ is_among e.provider.name done =
              some-injective _ _ (rw (ready_of, o) at h.0) in
            elim (Bool-cases (is_among e.provider.name done)) [
              | inl a ↦
                  rw (get_loop, o, r, a, all_collected)
                    (get_loop-ready states done es (insert e.provider.name (cached_value s) result)
                      h.1)
              | inr a ↦ rw (get_loop, o, r, a, all_collected) refl
            ]
      ]

  -- each of the entries is among the entries
  among-entries :
      (whole : List Text) (es : List (ProviderEntry W))
      → ((k : Text)
          → is_among k (names (map (λ e. e.provider) es)) ≡ true
          → is_among k whole ≡ true)
      → All (λ e. is_among e.provider.name whole ≡ true) es
  unfolding is_among
  among-entries whole [] h = tt
  among-entries whole (e ∷ es) h = (
    h e.provider.name (rw (text_eq_refl e.provider.name, is_among) refl),
    among-entries whole es (λ k q. h k (later e es k q)),
  )
    where
      later :
          (e : ProviderEntry W) (es : List (ProviderEntry W)) (k : Text)
          → is_among k (names (map (λ e. e.provider) es)) ≡ true
          → is_among k (names (map (λ e. e.provider) (e ∷ es))) ≡ true
      later e es k q = unfold is_among in ground (arith, q)

  module _ (registry : Registry W) (interval : ℤ) (ps : List (Provider W)) (w : W) where
    abbrev after : DatasCache W
    after = (refresh_all ps (new_datas_cache registry interval, w)).0

    entries-ready :
        (es : List (ProviderEntry W))
        → All
            (λ e. is_among e.provider.name (names (map (λ e. e.provider) registry.entries)) ≡ true)
            es
        → All
            (λ e.
              ready_of e.provider.name after.states ≡ some (is_among e.provider.name (names ps)))
            es
    entries-ready [] h = tt
    entries-ready (e ∷ es) h = (
      refresh_all-ready e.provider.name ps (new_datas_cache registry interval, w)
          ∙ (unfold new_datas_cache in
              ground (arith, empty_states-ready e.provider.name registry.entries [], h.0)),
      entries-ready es h.1,
    )

    -- Whatever the order in which the providers have been collected since the cache was made, `Get`
    -- answers that it is initializing exactly if the provider of some entry has not been collected yet.
    pub get-is_initializing :
        (timestamp timezone : Text)
        → is_initializing (get after timestamp timezone)
          ≡ not (all_collected (names ps) registry.entries)
    unfolding get new_datas_cache
    get-is_initializing timestamp timezone =
        ap (λ r. is_initializing (get_loop after.states r.entries (stamped timestamp timezone)))
          (refresh_all-registry ps (new_datas_cache registry interval, w))
        ∙ get_loop-ready after.states (names ps) registry.entries (stamped timestamp timezone)
            (entries-ready registry.entries (among-entries _ registry.entries (λ k q. q)))
