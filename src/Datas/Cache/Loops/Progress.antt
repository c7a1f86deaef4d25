-- ===== src/Datas/Cache/Loops/Progress.antt =====
-- internal/datas/registry.go: that the cache is filled once every goroutine has been on.
use limiz.Base.{
  Option-cases, inl, inr, lookup, insert, ℤ, ◌≡◌, ◌≢◌, refl, sym, ap, ◌∙◌, ℕ, zero, suc, Text, List,
  [], ◌∷◌, map, Map, Bool, true, false, All, All-mono, arith, some, text_eq_refl,
}
use mathlib.Core.Path.{subst}
use mathlib.Core.Option.{some-injective, some-ne-none}
use limiz.Datas.Cache.Loops.Schedules.{run_moves-start}
use limiz.Datas.Json.{Json}
use limiz.Datas.Registry.{Provider, ProviderEntry, Registry, stamped}
use limiz.Datas.Cache.{
  ProviderState, DatasCache, new_datas_cache, refresh, get, get_loop, cached_value,
}
use limiz.Datas.Cache.Steps.{ready_of, refresh-ready, is_initializing, refresh_all-registry}
use limiz.Datas.Cache.Loops.{
  Phase, starting, waiting, ended, crashed, Goroutine, Case, tick, stop_ch, Running, Move, goes_on,
  stops, launch, start, run_phase, run_provider, run_at, stop, move, run_moves,
}

module _ {W : Type 0} where
  IsReady : DatasCache W × W → Text → Type 0
  IsReady st k = ready_of k st.0.states ≡ some true

  -- a provider that is ready stays so, and the collected one is
  refresh-IsReady :
      (k : Text) (p : Provider W) (st : DatasCache W × W) → IsReady st k → IsReady (refresh p st) k
  unfolding IsReady
  refresh-IsReady k p st h = refresh-ready k p st ∙ ground (arith, h)

  refreshed-IsReady : (p : Provider W) (st : DatasCache W × W) → IsReady (refresh p st) p.name
  unfolding IsReady
  refreshed-IsReady p st = refresh-ready p.name p st ∙ rw (text_eq_refl p.name) refl

  run_phase-IsReady :
      (phase : Phase) (case : Case) (closed : Bool) (g : Goroutine W) (st : DatasCache W × W)
      (k : Text)
      → IsReady st k
      → IsReady (run_phase phase case closed g st).1 k
  unfolding run_phase
  run_phase-IsReady starting case closed g st k h = refresh-IsReady k g.provider st h
  run_phase-IsReady waiting tick closed g st k h = refresh-IsReady k g.provider st h
  run_phase-IsReady waiting stop_ch closed g st k h = h
  run_phase-IsReady ended case closed g st k h = h
  run_phase-IsReady crashed case closed g st k h = h

  run_at-IsReady :
      (i : ℕ) (case : Case) (closed : Bool) (gs : List (Goroutine W)) (st : DatasCache W × W)
      (k : Text)
      → IsReady st k
      → IsReady (run_at i case closed gs st).1 k
  unfolding run_at run_provider
  run_at-IsReady i case closed [] st k h = h
  run_at-IsReady zero case closed (g ∷ gs) st k h = run_phase-IsReady g.phase case closed g st k h
  run_at-IsReady (suc i) case closed (g ∷ gs) st k h = run_at-IsReady i case closed gs st k h

  -- a goroutine past its start has filled the state of its provider
  HasFilled : DatasCache W × W → Goroutine W → Type 0
  HasFilled st g = g.phase ≢ starting → IsReady st g.provider.name

  run_phase-HasFilled :
      (phase : Phase) (case : Case) (closed : Bool) (g : Goroutine W) (st : DatasCache W × W)
      → (phase ≢ starting → IsReady st g.provider.name)
      → IsReady (run_phase phase case closed g st).1 g.provider.name
  unfolding run_phase
  run_phase-HasFilled starting case closed g st h = refreshed-IsReady g.provider st
  run_phase-HasFilled waiting tick closed g st h = refreshed-IsReady g.provider st
  run_phase-HasFilled waiting stop_ch closed g st h = h (λ e. ground arith)
  run_phase-HasFilled ended case closed g st h = h (λ e. ground arith)
  run_phase-HasFilled crashed case closed g st h = h (λ e. ground arith)

  run_phase-provider :
      (phase : Phase) (case : Case) (closed : Bool) (g : Goroutine W) (st : DatasCache W × W)
      → (run_phase phase case closed g st).0.provider ≡ g.provider
  unfolding run_phase
  run_phase-provider starting case closed g st = refl
  run_phase-provider waiting tick closed g st = refl
  run_phase-provider waiting stop_ch closed g st = refl
  run_phase-provider ended case closed g st = refl
  run_phase-provider crashed case closed g st = refl

  run_at-HasFilled :
      (i : ℕ) (case : Case) (closed : Bool) (gs : List (Goroutine W)) (st : DatasCache W × W)
      → All (HasFilled st) gs
      → All (HasFilled (run_at i case closed gs st).1) (run_at i case closed gs st).0
  unfolding run_at run_provider HasFilled
  run_at-HasFilled i case closed [] st h = tt
  run_at-HasFilled zero case closed (g ∷ gs) st h =
      let st' = (run_phase g.phase case closed g st).1 in
      (
        λ _.
            subst (λ p. IsReady st' p.name) (sym (run_phase-provider g.phase case closed g st))
              (run_phase-HasFilled g.phase case closed g st h.0),
        All-mono _ _ gs
            (λ g' f n. run_phase-IsReady g.phase case closed g st g'.provider.name (f n)) h.1,
      )
  run_at-HasFilled (suc i) case closed (g ∷ gs) st h = (
    λ n. run_at-IsReady i case closed gs st g.provider.name (h.0 n),
    run_at-HasFilled i case closed gs st h.1,
  )

  provider_names : List (Goroutine W) → List Text
  provider_names = map (λ g. g.provider.name)

  run_at-names :
      (i : ℕ) (case : Case) (closed : Bool) (gs : List (Goroutine W)) (st : DatasCache W × W)
      → provider_names (run_at i case closed gs st).0 ≡ provider_names gs
  unfolding run_at run_provider provider_names
  run_at-names i case closed [] st = refl
  run_at-names zero case closed (g ∷ gs) st =
      ap (λ p. p.name ∷ provider_names gs) (run_phase-provider g.phase case closed g st)
  run_at-names (suc i) case closed (g ∷ gs) st =
      ap (λ ns. g.provider.name ∷ ns) (run_at-names i case closed gs st)

  -- what holds of the goroutines of these names between two moves
  record IsRun (names : List Text) (r : Running W) : Type 0 where
    filled : All (HasFilled r.cache) r.goroutines
    named : provider_names r.goroutines ≡ names

  move-IsRun :
      (names : List Text) (m : Move) (r : Running W) → IsRun names r → IsRun names (move m r)
  unfolding move stop
  move-IsRun names (goes_on i case) r h = record {
    filled = run_at-HasFilled i case r.stop_ch_closed r.goroutines r.cache h.filled;
    named = run_at-names i case r.stop_ch_closed r.goroutines r.cache ∙ h.named;
  }
  move-IsRun names stops r h = record { filled = h.filled; named = h.named }

  run_moves-IsRun :
      (names : List Text) (ms : List Move) (r : Running W)
      → IsRun names r
      → IsRun names (run_moves ms r)
  unfolding run_moves
  run_moves-IsRun names [] r h = h
  run_moves-IsRun names (m ∷ ms) r h = run_moves-IsRun names ms (move m r) (move-IsRun names m r h)

  entry_names : List (ProviderEntry W) → List Text
  entry_names = map (λ e. e.provider.name)

  launched-IsRun :
      (dc : DatasCache W) (w : W) (es : List (ProviderEntry W))
      → All (HasFilled (dc, w)) (map (launch dc) es)
        × (provider_names (map (launch dc) es) ≡ entry_names es)
  unfolding launch HasFilled provider_names entry_names
  launched-IsRun dc w [] = (tt, refl)
  launched-IsRun dc w (e ∷ es) =
      let (f, n) = launched-IsRun dc w es in
      ((λ h. absurd (h refl), f), ap (λ ns. e.provider.name ∷ ns) n)

  filled-names :
      (st : DatasCache W × W) (gs : List (Goroutine W))
      → All (HasFilled st) gs
      → All (λ g. g.phase ≢ starting) gs
      → All (IsReady st) (provider_names gs)
  unfolding HasFilled provider_names
  filled-names st [] f n = tt
  filled-names st (g ∷ gs) f n = (f.0 n.0, filled-names st gs f.1 n.1)

  get_loop-filled :
      (states : Map ProviderState) (es : List (ProviderEntry W)) (result : Map Json)
      → All (λ k. ready_of k states ≡ some true) (entry_names es)
      → is_initializing (get_loop states es result) ≡ false
  unfolding get_loop ready_of entry_names
  get_loop-filled states [] result h = refl
  get_loop-filled states (e ∷ es) result h = elim (Option-cases (lookup e.provider.name states)) [
    | inl o ↦ absurd (some-ne-none _ (sym (rw (ready_of, o) at h.0)))
    | inr (s, o) ↦
        let r : s.ready ≡ true = some-injective _ _ (rw (ready_of, o) at h.0) in
        rw (get_loop, o, r)
          (get_loop-filled states es (insert e.provider.name (cached_value s) result) h.1)
  ]

  -- However the goroutines of `Start` are interleaved, with each other and with `Stop`: once none of them is
  -- before its first collection, `Get` does not answer any more that the cache is initializing.
  pub run_moves-filled :
      (registry : Registry W) (interval : ℤ) (w : W) (ms : List Move) (timestamp timezone : Text)
      → All
          (λ g. g.phase ≢ starting)
          (run_moves ms (start (new_datas_cache registry interval) w)).goroutines
      → is_initializing (
          get
            (run_moves ms (start (new_datas_cache registry interval) w)).cache.0
            timestamp
            timezone)
        ≡ false
  unfolding start get new_datas_cache IsReady
  run_moves-filled registry interval w ms timestamp timezone h =
      let dc = new_datas_cache registry interval in
      let r = run_moves ms (start dc w) in
      let (f, n) = launched-IsRun dc w registry.entries in
      let run =
        run_moves-IsRun (entry_names registry.entries) ms (start dc w)
          (record { filled = f; named = n }) in
      let (ps, e, _) = run_moves-start registry interval w ms in
      let same : r.cache.0.registry ≡ registry =
        ap (λ st. st.0.registry) e ∙ refresh_all-registry ps (dc, w) in
      ap
        (λ reg.
          is_initializing (get_loop r.cache.0.states reg.entries (stamped timestamp timezone)))
        same
      ∙ get_loop-filled r.cache.0.states registry.entries (stamped timestamp timezone)
          (subst (All (IsReady r.cache)) run.named (filled-names r.cache r.goroutines run.filled h))
