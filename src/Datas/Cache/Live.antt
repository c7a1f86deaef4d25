-- ===== src/Datas/Cache/Live.antt =====
-- internal/datas/registry.go: the cached document and the one that is collected live.
use limiz.Base.{
  Text, Map, List, [], ◌∷◌, Bool, true, false, ◌&&◌, some, if◌then◌else◌, text_eq, text_eq→eq,
  ne→text_eq, lookup, insert, lookup-insert, All, ℤ, ◌≡◌, ◌≢◌, ◌∙◌, refl, sym, ap, arith,
  Bool-cases, inl, inr,
}
use limiz.Disk.{is_among}
use limiz.Datas.Json.{Json}
use limiz.Datas.Registry.{
  Collection, collected, failed, Provider, ProviderEntry, Registry, live_value, live_loop,
  collect_json, stamped,
}
use limiz.Datas.Cache.{
  ProviderState, DatasCache, document, new_datas_cache, settle, refresh, refresh_all, cached_value,
  get_loop, get,
}
use limiz.Datas.Cache.Steps.{names, settle-ready, all_collected, refresh_all-registry}

-- an error that has a text
abbrev pub IsTelling : Collection → Type 0
IsTelling (collected v) = Unit
IsTelling (failed msg) = msg ≢ []

cached_value-settle : (c : Collection) → IsTelling c → cached_value (settle c) ≡ live_value c
unfolding cached_value settle live_value
cached_value-settle (collected v) h = unfold text_eq in refl
cached_value-settle (failed msg) h = rw (cached_value, ne→text_eq msg [] h) refl

module _ {W : Type 0} (answers : Text → Collection) where
  -- a provider gives the answer of its name, whatever the machine's state
  abbrev pub IsSteady : Provider W → Type 0
  IsSteady p = (w : W) → (p.collect w).1 ≡ answers p.name

  -- the document with the answers of the entries
  settled_loop : List (ProviderEntry W) → Map Json → Map Json
  settled_loop [] result = result
  settled_loop (e ∷ es) result =
      settled_loop es (insert e.provider.name (live_value (answers e.provider.name)) result)

  live_loop-settled :
      (es : List (ProviderEntry W)) (w : W) (result : Map Json)
      → All (λ e. IsSteady e.provider) es
      → (live_loop es w result).1 ≡ settled_loop es result
  unfolding live_loop settled_loop
  live_loop-settled [] w result h = refl
  live_loop-settled (e ∷ es) w result h =
      live_loop-settled es (e.provider.collect w).0 _ h.1 ∙ rw (h.0 w) refl

  refresh_all-settled :
      (k : Text) (ps : List (Provider W)) (st : DatasCache W × W)
      → All IsSteady ps
      → lookup k (refresh_all ps st).0.states
        ≡ (if is_among k (names ps) then some (settle (answers k)) else lookup k st.0.states)
  unfolding refresh_all refresh is_among
  refresh_all-settled k [] st h = refl
  refresh_all-settled k (p ∷ ps) st h =
      refresh_all-settled k ps (refresh p st) h.1 ∙ elim (Bool-cases (text_eq p.name k)) [
        | inl e ↦
            rw
              (
                lookup-insert p.name k (settle (p.collect st.1).1) st.0.states,
                e,
                h.0 st.1,
                text_eq→eq p.name k e,
              )
              (elim (Bool-cases (is_among k (names ps))) [ inl a ↦ rw a refl | inr a ↦ rw a refl ])
        | inr e ↦ rw (lookup-insert p.name k (settle (p.collect st.1).1) st.0.states, e) refl
      ]

  get_loop-settled :
      (states : Map ProviderState) (done : List Text) (es : List (ProviderEntry W))
      (result : Map Json)
      → ((k : Text) → is_among k done ≡ true → lookup k states ≡ some (settle (answers k)))
      → ((k : Text) → IsTelling (answers k))
      → all_collected done es ≡ true
      → get_loop states es result ≡ document (settled_loop es result)
  unfolding get_loop settled_loop all_collected
  get_loop-settled states done [] result h t c = refl
  get_loop-settled states done (e ∷ es) result h t c =
      let (a, b) = both (is_among e.provider.name done) (all_collected done es) c in
      rw
        (
          get_loop,
          h e.provider.name a,
          settle-ready (answers e.provider.name),
          cached_value-settle (answers e.provider.name) (t e.provider.name),
        )
        (get_loop-settled states done es _ h t b)
    where
      both : (a b : Bool) → (a && b) ≡ true → (a ≡ true) × (b ≡ true)
      both true true e = (refl, refl)
      both true false e = absurd (ground arith)
      both false b e = absurd (ground arith)

  -- For providers whose answers depend on their names only and whose errors have a text, once each has
  -- been collected at least once, in whatever order, `Get` answers the document that `CollectJSON`
  -- would write live, at the same time.
  pub get-collect_json :
      (registry : Registry W) (interval : ℤ) (ps : List (Provider W)) (w w' : W)
      (timestamp timezone : Text)
      → All IsSteady ps
      → All (λ e. IsSteady e.provider) registry.entries
      → ((k : Text) → IsTelling (answers k))
      → all_collected (names ps) registry.entries ≡ true
      → get (refresh_all ps (new_datas_cache registry interval, w)).0 timestamp timezone
        ≡ document (collect_json registry timestamp timezone w').1
  unfolding get collect_json new_datas_cache
  get-collect_json registry interval ps w w' timestamp timezone steady live telling done =
      let cache = new_datas_cache registry interval in
      let states = (refresh_all ps (cache, w)).0.states in
      ap (λ r. get_loop states r.entries (stamped timestamp timezone))
        (refresh_all-registry ps (cache, w))
      ∙ get_loop-settled states (names ps) registry.entries (stamped timestamp timezone)
          (λ k a. refresh_all-settled k ps (cache, w) steady ∙ rw a refl) telling done
      ∙ ap document (sym (live_loop-settled registry.entries w' (stamped timestamp timezone) live))
