-- ===== src/LocalWriter/Jsonl.antt =====
-- internal/localwriter/backend_jsonl.go: the backend that writes a JSON object on a line.
pub mod Labels
pub mod Lines
use limiz.Base.{
  ℕ, ◌/◌, Text, Map, List, [], ◌∷◌, ◌++◌, Bool, true, false, none, some, Option, if◌then◌else◌,
  codes, lookup_text, insertion_sort, text_less, map, length,
}
use limiz.Strings.Split.{join}
use limiz.Floats.{Floats}
use limiz.Disk.{Disk, open_append, append_line}
use limiz.Collectors.Metric.{Metric}

pub record JsonlRecord (F : Type 0) : Type 0 where
  pub timestamp : Text
  pub ts_unix : F
  pub name : Text
  pub labels : Text
  pub value : F
  pub type : Text

-- The path of the file that is open, none where `file` and `enc` are nil.
pub record JsonlBackend : Type 0 where
  pub file : Option Text

pub data BackendError : Type 0 where
  not_opened : Text → BackendError
  not_open : BackendError
  not_encoded : BackendError

keys_of : Map Text → List Text
keys_of m = map (λ kv. kv.0) m

label_pair : Map Text → Text → Text
unfolding lookup_text
label_pair labels k = k ++ b'=' ∷ lookup_text k labels

unfoldable pub format_labels : Map Text → Text
unfolding keys_of label_pair insertion_sort text_less join
format_labels [] = []
format_labels (l ∷ ls) =
    join b',' (map (label_pair (l ∷ ls)) (insertion_sort text_less (keys_of (l ∷ ls))))

abbrev pub extension : Text
extension = codes ".jsonl"

-- `selectBackend`: there is one backend, whatever the format
abbrev pub select_backend : Text → JsonlBackend
select_backend format = record { file = none }

module _ {F : Type 0} where
  unfoldable pub open_backend :
      Text
      → JsonlBackend
      → Disk (JsonlRecord F)
      → Option BackendError × JsonlBackend × Disk (JsonlRecord F)
  unfolding open_append
  open_backend path b disk = elim (open_append path disk) [
    | none ↦ (some (not_opened path), b, disk)
    | some disk' ↦ (none, record { file = some path }, disk')
  ]

unfoldable pub close_backend : JsonlBackend → JsonlBackend
close_backend b = record { file = none }

-- A time is its nanoseconds since 1970, and `time.RFC3339` is given; the encoder refuses a value that is
-- no finite number.
module _ (fl : Floats) (is_finite : fl.F → Bool) (rfc3339 : ℕ → Text) where
  open fl use {F, div, of_nat}

  unfoldable pub jsonl_record : ℕ → Metric F → JsonlRecord F
  unfolding format_labels
  jsonl_record ts m = record {
    timestamp = rfc3339 ts;
    ts_unix = div (of_nat (ts / 1_000_000)) (of_nat 1000);
    name = m.name;
    labels = format_labels m.labels;
    value = m.value;
    type = m.type;
  }

  -- the loop over the metrics, which ends at the first that is not encoded
  write_loop :
      Text → ℕ → List (Metric F) → Disk (JsonlRecord F) → Option BackendError × Disk (JsonlRecord F)
  unfolding jsonl_record append_line
  write_loop path ts [] disk = (none, disk)
  write_loop path ts (m ∷ ms) disk =
      let rest = write_loop path ts ms (append_line path (jsonl_record ts m) disk) in
      if is_finite m.value then rest else (some not_encoded, disk)

  unfoldable pub write_backend :
      JsonlBackend
      → ℕ
      → List (Metric F)
      → Disk (JsonlRecord F)
      → Option BackendError × Disk (JsonlRecord F)
  unfolding write_loop
  write_backend b ts metrics disk = elim b.file [
    | none ↦ (some not_open, disk)
    | some path ↦ write_loop path ts metrics disk
  ]
