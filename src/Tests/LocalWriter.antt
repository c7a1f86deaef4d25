-- ===== src/Tests/LocalWriter.antt =====
-- internal/localwriter at concrete inputs.
use limiz.Base.{
  if◌then◌else◌, not, none, ℕ, ◌+◌, ◌*◌, ◌≡◌, refl, arith, min, Text, Map, List, [], ◌∷◌, ◌++◌,
  Bool, true, false, some, Option, codes, pos, lookup, text_eq, length, All, SameElements, count_of,
  text_less, text_eq_iff,
}
use limiz.Time.Duration.{hour}
use limiz.Strconv.Decimal.{itoa}
use limiz.Disk.{Disk, read_dir, is_among}
use limiz.Collectors.Metric.{Metric, Registry, gauge}
use limiz.LocalWriter.Intervals.{parse_interval}
use limiz.LocalWriter.Jsonl.{JsonlRecord, JsonlBackend, jsonl_record, format_labels}
use limiz.LocalWriter.Jsonl.Labels.{keys, format_labels-SameElements}
use limiz.LocalWriter.Writer.{clean_old_files, Config, Writer, tick, stop, new_writer, run_writer}
use limiz.LocalWriter.Writer.Cleaning.{found_in, clean_old_files-keeps_last}
use limiz.Tests.Numbers.{naturals}

-- what stands behind the number is not read
stray_unit : parse_interval (codes "7hd") ≡ some (pos (7 * (24 * hour)))
unfolding parse_interval
stray_unit = refl

abbrev load : Metric ℕ
load = record {
  name = codes "load";
  help = [];
  type = gauge;
  labels = (codes "cpu", codes "1") ∷ (codes "arch", codes "x") ∷ [];
  value = 3;
}

abbrev log_path : Text
log_path = codes "metrics.jsonl"

abbrev empty_disk : Disk (JsonlRecord ℕ)
empty_disk = record { files = (log_path, []) ∷ []; is_locked = λ p. false; has_dir = λ d. true }

abbrev finite : ℕ → Bool
finite n = true

abbrev stamp : ℕ → Text
stamp t = itoa t

abbrev open_log : JsonlBackend
open_log = record { file = some log_path }

sorted_labels : format_labels load.labels ≡ codes "arch=x,cpu=1"
unfolding format_labels lookup text_eq
sorted_labels = refl

abbrev swapped : Map Text
swapped = (codes "arch", codes "x") ∷ (codes "cpu", codes "1") ∷ []

same_keys : SameElements (keys load.labels) (keys swapped)
unfolding count_of
same_keys p = ground arith

same_values : (k : Text) → lookup k load.labels ≡ lookup k swapped
unfolding lookup
same_values k = ground (arith, text_eq_iff (codes "cpu") k, text_eq_iff (codes "arch") k)

format_labels-SameElements_example : format_labels load.labels ≡ format_labels swapped
format_labels-SameElements_example =
    format_labels-SameElements load.labels swapped same_keys same_values

abbrev config : Config
config = record {
  enabled = true;
  format = [];
  interval = codes "30s";
  db_path = log_path;
  rotate = codes "1d";
  max_files = pos 1;
  batch_size = pos 0;
}

-- two rotated files, of which one goes
abbrev three_logs : Disk (JsonlRecord ℕ)
three_logs = record empty_disk {
  files =
      (codes "/v/metrics-2.jsonl", [])
      ∷ (codes "/v/metrics-1.jsonl", [])
      ∷ (codes "/v/metrics.jsonl", [])
      ∷ [];
}

abbrev log_names : List Text
log_names = codes "metrics-1.jsonl" ∷ codes "metrics-2.jsonl" ∷ codes "metrics.jsonl" ∷ []

clean_old_files-keeps_last_example :
    (gone : List Text) × (stay : List Text) × SameElements
      (gone ++ stay)
      (found_in config (codes "/v/metrics") (codes ".jsonl") log_names)
    × (length stay
        ≡ min 1 (length (found_in config (codes "/v/metrics") (codes ".jsonl") log_names)))
    × All (λ old. All (λ new. text_less new old ≡ false) stay) gone
    × ((q : Text)
        → lookup q (clean_old_files config (codes "/v/metrics") (codes ".jsonl") three_logs).files
          ≡ (if (if is_among q gone then not (three_logs.is_locked q) else false)
              then none
              else lookup q three_logs.files))
clean_old_files-keeps_last_example =
    clean_old_files-keeps_last config 1 (codes "/v/metrics") (codes ".jsonl") log_names three_logs
      refl (unfold read_dir in refl)

first_gone :
    (clean_old_files config (codes "/v/metrics") (codes ".jsonl") three_logs).files
    ≡ (codes "/v/metrics-2.jsonl", []) ∷ (codes "/v/metrics.jsonl", []) ∷ []
unfolding clean_old_files
first_gone = refl

abbrev names : List Text
names = codes "metrics.jsonl" ∷ []

abbrev made : Text → Bool
made d = true

abbrev built : Option Writer
built = (new_writer made 100 config empty_disk).1

abbrev writer : Writer
writer = record {
  cfg = record config { batch_size = pos 500 };
  backend = open_log;
  interval = pos 30_000_000_000;
  rotate = pos (24 * hour);
  db_start = 100;
}

starts : built ≡ some writer
unfolding new_writer
starts = refl

-- a day later the log is rotated, and the snapshots before and after stand in two files
abbrev registry : Registry Unit ℕ
registry = record {
  collectors = record { name = codes "load"; collect = λ w. (w, load ∷ []) } ∷ [];
}

abbrev line : ℕ → JsonlRecord ℕ
line t = jsonl_record naturals finite stamp t load

a_day :
    (run_writer naturals finite stamp stamp registry 100
      (tick (100 + 24 * hour) ∷ stop (101 + 24 * hour) ∷ [])
      (record { writer = writer; world = tt; disk = empty_disk })).disk.files
    ≡ (codes "metrics-86400000000100.jsonl", line 100 ∷ [])
      ∷ (log_path, line (100 + 24 * hour) ∷ line (101 + 24 * hour) ∷ [])
      ∷ []
unfolding run_writer jsonl_record itoa
a_day = refl
