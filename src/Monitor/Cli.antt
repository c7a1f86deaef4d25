-- ===== src/Monitor/Cli.antt =====
-- internal/monitor/cli.go: `RunCLI`, as the report that it prints or the error that ends it.
use limiz.Base.{
  ℕ, ◌+◌, ◌-◌, ◌/◌, Text, List, [], ◌∷◌, ◌++◌, Bool, none, some, Option, if◌then◌else◌, leb, length,
  ℤ, pos, negsuc, neg, ltb_ℤ,
}
use limiz.Time.Duration.{second, hour}
use limiz.Floats.{Floats}
use limiz.Disk.{Disk}
use limiz.Monitor.Record.{Record, Item}
use limiz.Monitor.Reader.{ReadError, ReadResult, failed, returned, read_records}
use limiz.Monitor.Summary.{
  WindowError, window, format_duration, effective_path, group, first_shown, shown_errors, Stats,
  stats,
}
use limiz.Monitor.Hourly.{HourRow, hourly_breakdown}

-- `now.Add(-dur).Unix()`, for `now` in nanoseconds: the second in which the window begins
unfoldable pub since_unix : ℕ → ℤ → ℤ
since_unix now (pos d) =
    if leb d now then pos ((now - d) / second) else neg ((d - now + (second - 1)) / second)
since_unix now (negsuc d) = pos ((now + (d + 1)) / second)

-- a report on at least one record; a part without records is none
pub record Summary (F : Type 0) : Type 0 where
  pub last : Text
  pub database : Text
  pub metric_stats : Option (Stats F)
  pub data_stats : Option (Stats F)
  pub hidden_errors : ℕ
  pub shown : List (Record F)
  pub metric_errors : ℕ
  pub data_errors : ℕ
  pub hours : Option (List (Option (HourRow F)))

pub data Report (F : Type 0) : Type 0 where
  bad_window : WindowError → Report F
  unreadable : ReadError → Report F
  no_records : Text → Text → Report F
  summary : Summary F → Report F

module _ (fl : Floats) (max_float zero_float : fl.F) (hour_key : ℤ → Text) where
  open fl use {F}

  stats_of : List (Record F) → Option (Stats F)
  unfolding stats
  stats_of [] = none
  stats_of (r ∷ rs) = some (stats fl max_float zero_float (r ∷ rs))

  unfoldable pub summarize : Text → ℤ → List (Record F) → Summary F
  unfolding group stats_of shown_errors hourly_breakdown format_duration effective_path
  summarize db_path dur records =
      let g = group records in
      record {
        last = format_duration dur;
        database = effective_path db_path;
        metric_stats = stats_of g.metrics;
        data_stats = stats_of g.datas;
        hidden_errors = first_shown (length (g.metric_errors ++ g.data_errors));
        shown = shown_errors g;
        metric_errors = length g.metric_errors;
        data_errors = length g.data_errors;
        hours =
            if ltb_ℤ (pos hour) dur
            then some (hourly_breakdown fl zero_float hour_key records)
            else none;
      }

  report : Text → ℤ → ReadResult F → Report F
  unfolding summarize format_duration effective_path
  report db_path dur (failed e) = unreadable e
  report db_path dur (returned []) = no_records (format_duration dur) (effective_path db_path)
  report db_path dur (returned (r ∷ rs)) = summary (summarize db_path dur (r ∷ rs))

  -- none while the log is being read
  unfoldable pub run_cli :
      (List (Record F) → List (Record F))
      → (Text → Bool)
      → ℕ
      → ℕ
      → Disk (Item F)
      → Text
      → Text
      → Option (Report F)
  unfolding window since_unix read_records report
  run_cli sort denied fuel now disk db_path text =
      let (error, dur) = window text in
      elim error [
        | some e ↦ some (bad_window e)
        | none ↦ elim (read_records sort denied fuel (since_unix now dur) disk db_path) [
          | none ↦ none
          | some r ↦ some (report db_path dur r)
        ]
      ]
