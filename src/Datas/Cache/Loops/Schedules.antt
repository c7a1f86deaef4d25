-- ===== src/Datas/Cache/Loops/Schedules.antt =====
-- internal/datas/registry.go: the cache after the goroutines of `Start` have run, in whatever order.
use limiz.Base.{◌≡◌, refl, sym, ap, ◌∙◌, ℕ, zero, suc, Text, List, [], ◌∷◌, ◌++◌, Bool, All, ℤ, not}
use mathlib.Core.Path.{subst}
use limiz.Datas.Registry.{Provider, Registry}
use limiz.Datas.Cache.{DatasCache, new_datas_cache, refresh, refresh_all, get}
use limiz.Datas.Cache.Steps.{names, all_collected, is_initializing, get-is_initializing}
use limiz.Datas.Cache.Loops.{
  Phase, starting, waiting, ended, crashed, Goroutine, Case, tick, stop_ch, Running, Move, goes_on,
  stops, start, run_phase, run_provider, run_at, stop, move, run_moves,
}

module _ {W : Type 0} where
  -- a state that is reached from another by collections
  IsCollected : DatasCache W × W → DatasCache W × W → Type 0
  IsCollected st st' = (ps : List (Provider W)) × (st' ≡ refresh_all ps st)

  run_phase-IsCollected :
      (phase : Phase) (case : Case) (closed : Bool) (g : Goroutine W) (st : DatasCache W × W)
      → IsCollected st (run_phase phase case closed g st).1
  unfolding IsCollected run_phase refresh_all
  run_phase-IsCollected starting case closed g st = (g.provider ∷ [], refl)
  run_phase-IsCollected waiting tick closed g st = (g.provider ∷ [], refl)
  run_phase-IsCollected waiting stop_ch closed g st = ([], refl)
  run_phase-IsCollected ended case closed g st = ([], refl)
  run_phase-IsCollected crashed case closed g st = ([], refl)

  run_at-IsCollected :
      (i : ℕ) (case : Case) (closed : Bool) (gs : List (Goroutine W)) (st : DatasCache W × W)
      → IsCollected st (run_at i case closed gs st).1
  unfolding IsCollected run_at run_provider refresh_all
  run_at-IsCollected i case closed [] st = ([], refl)
  run_at-IsCollected zero case closed (g ∷ gs) st = run_phase-IsCollected g.phase case closed g st
  run_at-IsCollected (suc i) case closed (g ∷ gs) st = run_at-IsCollected i case closed gs st

  move-IsCollected : (m : Move) (r : Running W) → IsCollected r.cache (move m r).cache
  unfolding IsCollected move stop refresh_all
  move-IsCollected (goes_on i case) r =
      run_at-IsCollected i case r.stop_ch_closed r.goroutines r.cache
  move-IsCollected stops r = ([], refl)

  refresh_all-append :
      (ps qs : List (Provider W)) (st : DatasCache W × W)
      → refresh_all (ps ++ qs) st ≡ refresh_all qs (refresh_all ps st)
  unfolding refresh_all
  refresh_all-append [] qs st = refl
  refresh_all-append (p ∷ ps) qs st = refresh_all-append ps qs (refresh p st)

  run_moves-IsCollected :
      (ms : List Move) (r : Running W) → IsCollected r.cache (run_moves ms r).cache
  unfolding IsCollected run_moves refresh_all
  run_moves-IsCollected [] r = ([], refl)
  run_moves-IsCollected (m ∷ ms) r =
      let (ps, e) = move-IsCollected m r in
      let (qs, f) = run_moves-IsCollected ms (move m r) in
      (ps ++ qs, f ∙ ap (refresh_all qs) e ∙ sym (refresh_all-append ps qs r.cache))

  -- However the goroutines of `Start` are interleaved, with each other and with `Stop`, the cache is in the
  -- state of a sequence of collections, and `Get` answers that it is initializing exactly if the provider of
  -- some entry is not among them.
  pub run_moves-start :
      (registry : Registry W) (interval : ℤ) (w : W) (ms : List Move)
      → (ps : List (Provider W)) × ((run_moves ms
            (start (new_datas_cache registry interval) w)).cache
          ≡ refresh_all ps (new_datas_cache registry interval, w))
        × ((timestamp timezone : Text)
            → is_initializing (
                get
                  (run_moves ms (start (new_datas_cache registry interval) w)).cache.0
                  timestamp
                  timezone)
              ≡ not (all_collected (names ps) registry.entries))
  unfolding IsCollected start
  run_moves-start registry interval w ms =
      let dc = new_datas_cache registry interval in
      let (ps, e) = run_moves-IsCollected ms (start dc w) in
      (
        ps,
        e,
        λ timestamp timezone.
            ap (λ st. is_initializing (get st.0 timestamp timezone)) e
            ∙ get-is_initializing registry interval ps w timestamp timezone,
      )

  abbrev pub IsOver : Goroutine W → Type 0
  IsOver g = g.phase ≡ ended

  over-run_at :
      (i : ℕ) (case : Case) (closed : Bool) (gs : List (Goroutine W)) (st : DatasCache W × W)
      → All IsOver gs
      → run_at i case closed gs st ≡ (gs, st)
  unfolding run_at run_provider run_phase
  over-run_at i case closed [] st h = refl
  over-run_at zero case closed (g ∷ gs) st h = rw (h.0, run_phase) refl
  over-run_at (suc i) case closed (g ∷ gs) st h = rw (over-run_at i case closed gs st h.1) refl

  -- Once every goroutine has ended, nothing that comes changes the cache.
  pub run_moves-IsOver :
      (ms : List Move) (r : Running W) → All IsOver r.goroutines → (run_moves ms r).cache ≡ r.cache
  unfolding run_moves move stop
  run_moves-IsOver [] r h = refl
  run_moves-IsOver (goes_on i case ∷ ms) r h =
      let e = over-run_at i case r.stop_ch_closed r.goroutines r.cache h in
      run_moves-IsOver ms (move (goes_on i case) r) (subst (All IsOver) (sym (ap (λ p. p.0) e)) h)
      ∙ ap (λ p. p.1) e
  run_moves-IsOver (stops ∷ ms) r h = run_moves-IsOver ms (stop r) h
