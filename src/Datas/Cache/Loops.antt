-- ===== src/Datas/Cache/Loops.antt =====
-- internal/datas/registry.go: `Start`, `runProvider` and `Stop`. A goroutine stands at its first collection,
-- in its loop, or has ended; a move lets one of them go on.
pub mod Schedules
pub mod Progress
use limiz.Base.{
  ℕ, zero, suc, List, [], ◌∷◌, map, Bool, true, false, ◌||◌, if◌then◌else◌, ℤ, pos, ltb_ℤ,
}
use limiz.Datas.Registry.{Provider, ProviderEntry, Registry}
use limiz.Datas.Cache.{DatasCache, resolve_interval, refresh}

pub data Phase : Type 0 where
  starting : Phase
  waiting : Phase
  ended : Phase
  -- `time.NewTicker` panics on an interval that is not positive
  crashed : Phase

pub record Goroutine (W : Type 0) : Type 0 where
  pub provider : Provider W
  pub interval : ℤ
  pub phase : Phase

-- what `select` has found: a tick, or the closed channel
pub data Case : Type 0 where
  tick : Case
  stop_ch : Case

pub record Running (W : Type 0) : Type 0 where
  pub cache : DatasCache W × W
  pub goroutines : List (Goroutine W)
  pub stop_ch_closed : Bool
  -- the channel was closed twice
  pub panicked : Bool

pub data Move : Type 0 where
  goes_on : ℕ → Case → Move
  stops : Move

module _ {W : Type 0} where
  unfoldable pub launch : DatasCache W → ProviderEntry W → Goroutine W
  launch dc e = record {
    provider = e.provider;
    interval = resolve_interval dc e.cache_interval;
    phase = starting;
  }

  unfoldable pub start : DatasCache W → W → Running W
  unfolding launch
  start dc w = record {
    cache = (dc, w);
    goroutines = map (launch dc) dc.registry.entries;
    stop_ch_closed = false;
    panicked = false;
  }

  unfoldable pub run_phase :
      Phase → Case → Bool → Goroutine W → DatasCache W × W → Goroutine W × (DatasCache W × W)
  run_phase starting case closed g st = (
    record g { phase = if ltb_ℤ (pos 0) g.interval then waiting else crashed },
    refresh g.provider st,
  )
  run_phase waiting tick closed g st = (g, refresh g.provider st)
  run_phase waiting stop_ch closed g st =
      (record g { phase = if closed then ended else waiting }, st)
  run_phase ended case closed g st = (g, st)
  run_phase crashed case closed g st = (g, st)

  -- `runProvider`, up to its next wait
  unfoldable pub run_provider :
      Case → Bool → Goroutine W → DatasCache W × W → Goroutine W × (DatasCache W × W)
  unfolding run_phase
  run_provider case closed g st = run_phase g.phase case closed g st

  -- the goroutine of an index, where there is one
  unfoldable pub run_at :
      ℕ
      → Case
      → Bool
      → List (Goroutine W)
      → DatasCache W × W
      → List (Goroutine W) × (DatasCache W × W)
  unfolding run_provider
  run_at i case closed [] st = ([], st)
  run_at zero case closed (g ∷ gs) st =
      let (g', st') = run_provider case closed g st in (g' ∷ gs, st')
  run_at (suc i) case closed (g ∷ gs) st =
      let (gs', st') = run_at i case closed gs st in (g ∷ gs', st')

  unfoldable pub stop : Running W → Running W
  stop r = record r { stop_ch_closed = true; panicked = r.panicked || r.stop_ch_closed }

  unfoldable pub move : Move → Running W → Running W
  unfolding run_at stop
  move (goes_on i case) r =
      let (gs, st) = run_at i case r.stop_ch_closed r.goroutines r.cache in
      record r { goroutines = gs; cache = st }
  move stops r = stop r

  unfoldable pub run_moves : List Move → Running W → Running W
  unfolding move
  run_moves [] r = r
  run_moves (m ∷ ms) r = run_moves ms (move m r)
