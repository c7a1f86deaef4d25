-- ===== src/Monitor/Summary.antt =====
-- internal/monitor/cli.go: the summary that `limiz monitor` prints, as the values that it prints.
pub mod Window
pub mod Grouping
pub mod Percentile
use limiz.Base.{
  ℕ, suc, ◌+◌, ◌-◌, ◌*◌, ◌/◌, Text, List, [], ◌∷◌, ◌++◌, Bool, true, false, not, none, some, Option,
  if◌then◌else◌, text_eq, codes, leb, ltb, length, drop, map, get_elem?, lookup, insert, Map, ℤ,
  pos, negsuc, ltb_ℤ, insertion_sort, text_less, count_of,
}
use limiz.Time.Duration.{parse_duration, minute, hour}
use limiz.Strconv.Decimal.{itoa}
use limiz.Floats.{Floats}
use limiz.Monitor.Record.{Record, record_metric, record_data}
use limiz.Monitor.Store.{default_db_path}

pub data WindowError : Type 0 where
  invalid_duration : Text → WindowError
  below_minute : WindowError
  above_day : WindowError

-- The requested duration; the empty text asks for an hour.
unfoldable pub window : Text → Option WindowError × ℤ
unfolding parse_duration text_eq
window text = if text_eq text [] then (none, pos hour) else elim (parse_duration text) [
  | none ↦ (some (invalid_duration text), pos hour)
  | some d ↦
      if ltb_ℤ d (pos minute)
      then (some below_minute, d)
      else if ltb_ℤ (pos (24 * hour)) d
      then (some above_day, d)
      else (none, d)
]

-- a duration that is not negative, in full units; a negative one prints as minutes towards zero
unfoldable pub format_duration : ℤ → Text
unfolding itoa
format_duration (pos d) =
    if leb (24 * hour) d
    then itoa (d / (24 * hour)) ++ codes " day(s)"
    else if leb hour d
    then itoa (d / hour) ++ codes " hour(s)"
    else itoa (d / minute) ++ codes " minute(s)"
format_duration (negsuc d) =
    let mins = suc d / minute in
    if leb mins 0 then codes "0 minute(s)" else b'-' ∷ itoa mins ++ codes " minute(s)"

unfoldable pub effective_path : Text → Text
unfolding text_eq
effective_path db_path = if text_eq db_path [] then default_db_path else db_path

module _ {F : Type 0} where
  abbrev pub is_error : Record F → Bool
  is_error r = not (text_eq r.error [])

  abbrev pub is_metric : Record F → Bool
  is_metric r = text_eq r.type record_metric

  abbrev pub is_data : Record F → Bool
  is_data r = text_eq r.type record_data

-- the index of the first error that is shown, of `n`
abbrev pub first_shown : ℕ → ℕ
first_shown n = if ltb 20 n then n - 20 else 0

-- the four slices of `RunCLI`
pub record Groups (F : Type 0) : Type 0 where
  pub metrics : List (Record F)
  pub datas : List (Record F)
  pub metric_errors : List (Record F)
  pub data_errors : List (Record F)

module _ {F : Type 0} where
  abbrev add_error : List (Record F) → Record F → List (Record F)
  add_error rs r = if is_error r then rs ++ r ∷ [] else rs

  add_record : Groups F → Record F → Groups F
  unfolding text_eq
  add_record g r =
      if is_metric r
      then record g { metrics = g.metrics ++ r ∷ []; metric_errors = add_error g.metric_errors r }
      else if is_data r
      then record g { datas = g.datas ++ r ∷ []; data_errors = add_error g.data_errors r }
      else g

  group_loop : Groups F → List (Record F) → Groups F
  unfolding add_record
  group_loop g [] = g
  group_loop g (r ∷ rs) = group_loop (add_record g r) rs

  unfoldable pub group : List (Record F) → Groups F
  unfolding group_loop
  group rs =
      group_loop (record { metrics = []; datas = []; metric_errors = []; data_errors = [] }) rs

  unfoldable pub shown_errors : Groups F → List (Record F)
  shown_errors g = let all = g.metric_errors ++ g.data_errors in drop (first_shown (length all)) all

pub record Stats (F : Type 0) : Type 0 where
  pub total : ℕ
  pub average : F
  pub min : F
  pub max : F
  pub p95 : Option F
  pub errors : ℕ

-- `int(float64(n) * 0.95)`, which is exact below 2^50, and the test behind it
abbrev pub p95_index : ℕ → ℕ
p95_index n = let i = n * 19 / 20 in if leb n i then n - 1 else i

module _ (fl : Floats) (max_float zero_float : fl.F) where
  open fl use {F, add, div, less, of_nat}

  sum_loop : F → List F → F
  sum_loop acc [] = acc
  sum_loop acc (d ∷ ds) = sum_loop (add acc d) ds

  unfoldable pub min_loop : F → List F → F
  min_loop m [] = m
  min_loop m (d ∷ ds) = min_loop (if less d m then d else m) ds

  unfoldable pub max_loop : F → List F → F
  max_loop m [] = m
  max_loop m (d ∷ ds) = max_loop (if less m d then d else m) ds

  -- `p95` is none only where there is no record
  unfoldable pub stats : List (Record F) → Stats F
  unfolding sum_loop min_loop max_loop insertion_sort count_of text_eq
  stats recs =
      let ds = map (λ r. r.duration_ms) recs in
      record {
        total = length recs;
        average = div (sum_loop zero_float ds) (of_nat (length recs));
        min = min_loop max_float ds;
        max = max_loop zero_float ds;
        p95 = get_elem? (insertion_sort less ds) (p95_index (length ds));
        errors = count_of is_error recs;
      }
