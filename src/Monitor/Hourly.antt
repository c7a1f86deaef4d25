-- ===== src/Monitor/Hourly.antt =====
-- internal/monitor/cli.go: the breakdown by hours. `hour_key` is the local hour of a time, as `Format`
-- writes it.
pub mod Counts
use limiz.Base.{
  ℕ, suc, ◌+◌, Text, List, [], ◌∷◌, ◌++◌, Bool, true, false, not, none, some, Option, if◌then◌else◌,
  text_eq, lookup, insert, Map, map, ℤ, insertion_sort, text_less, ltb,
}
use limiz.Floats.{Floats}
use limiz.Monitor.Record.{Record}
use limiz.Monitor.Summary.{is_error, is_metric, is_data}

pub record HourBucket (F : Type 0) : Type 0 where
  pub hour : Text
  pub metric_count : ℕ
  pub metric_sum_ms : F
  pub data_count : ℕ
  pub data_sum_ms : F
  pub errors : ℕ

-- the map of the buckets, and its keys in the order in which they came up
pub record Buckets (F : Type 0) : Type 0 where
  pub buckets : Map (HourBucket F)
  pub keys : List Text

-- a printed line
pub record HourRow (F : Type 0) : Type 0 where
  pub hour : Text
  pub metric_count : ℕ
  pub metric_average : F
  pub data_count : ℕ
  pub data_average : F
  pub errors : ℕ

module _ (fl : Floats) (zero_float : fl.F) (hour_key : ℤ → Text) where
  open fl use {F, add, div, of_nat}

  empty_bucket : Text → HourBucket F
  empty_bucket key = record {
    hour = key;
    metric_count = 0;
    metric_sum_ms = zero_float;
    data_count = 0;
    data_sum_ms = zero_float;
    errors = 0;
  }

  -- the `switch` on the type, and the test on the error behind it
  count_type : HourBucket F → Record F → HourBucket F
  unfolding text_eq
  count_type b r =
      if is_metric r
      then record b {
        metric_count = b.metric_count + 1;
        metric_sum_ms = add b.metric_sum_ms r.duration_ms;
      }
      else if is_data r
      then record b { data_count = b.data_count + 1; data_sum_ms = add b.data_sum_ms r.duration_ms }
      else b

  count_record : HourBucket F → Record F → HourBucket F
  unfolding count_type
  count_record b r =
      let b' = count_type b r in if is_error r then record b' { errors = b'.errors + 1 } else b'

  add_hour : Buckets F → Record F → Buckets F
  unfolding count_record empty_bucket lookup insert
  add_hour st r =
      let key = hour_key r.timestamp in
      elim (lookup key st.buckets) [
        | none ↦ record {
          buckets = insert key (count_record (empty_bucket key) r) st.buckets;
          keys = st.keys ++ key ∷ [];
        }
        | some b ↦ record st { buckets = insert key (count_record b r) st.buckets }
      ]

  bucket_loop : Buckets F → List (Record F) → Buckets F
  unfolding add_hour
  bucket_loop st [] = st
  bucket_loop st (r ∷ rs) = bucket_loop (add_hour st r) rs

  average : F → ℕ → F
  average sum n = if ltb 0 n then div sum (of_nat n) else zero_float

  row : HourBucket F → HourRow F
  unfolding average
  row b = record {
    hour = b.hour;
    metric_count = b.metric_count;
    metric_average = average b.metric_sum_ms b.metric_count;
    data_count = b.data_count;
    data_average = average b.data_sum_ms b.data_count;
    errors = b.errors;
  }

  -- a key without a bucket would be a nil pointer
  rows : Map (HourBucket F) → List Text → List (Option (HourRow F))
  unfolding row lookup
  rows buckets [] = []
  rows buckets (key ∷ keys) =
      elim (lookup key buckets) [ none ↦ none | some b ↦ some (row b) ] ∷ rows buckets keys

  unfoldable pub bucket_records : List (Record F) → Buckets F
  unfolding bucket_loop
  bucket_records rs = bucket_loop (record { buckets = []; keys = [] }) rs

  unfoldable pub hourly_breakdown : List (Record F) → List (Option (HourRow F))
  unfolding bucket_records rows insertion_sort text_less
  hourly_breakdown rs =
      let st = bucket_records rs in rows st.buckets (insertion_sort text_less st.keys)
