-- ===== src/FolderSize.antt =====
-- plugins-src/folder-size/main.go: the entries that the plugin prints as JSON, and its exit code. The JSON
-- syntax and the warnings on the standard error are left out. `flag.Parse` has read the flags.
pub mod HumanSize
use limiz.Base.{
  ℕ, suc, ◌+◌, ◌*◌, Text, List, [], ◌∷◌, ◌++◌, map, Bool, true, false, not, codes, ltb,
  if◌then◌else◌, pos, negsuc, ℤ, of_word,
}
use limiz.Strconv.Decimal.{itoa}
use limiz.Floats.{Floats}
use limiz.DirWalk.{Measured, measured, failed, Totals, zero_totals, FileSystem, measure_dir}
use limiz.DirSize.{Flags}

pub record FolderEntry : Type 0 where
  pub path : Text
  -- the bits of an int64
  pub size_bytes : ℕ
  pub size_human : Text
  pub file_count : ℕ
  pub error : Text

-- what is printed
pub data Output : Type 0 where
  nothing : Output
  metadata : Output
  entries : List FolderEntry → Output

pub record Exit : Type 0 where
  pub stdout : Output
  pub code : ℕ

abbrev pub kb : ℕ
kb = 1024

abbrev pub mb : ℕ
mb = kb * 1024

abbrev pub gb : ℕ
gb = mb * 1024

abbrev pub tb : ℕ
tb = gb * 1024

module _ (fl : Floats) (format_2f : fl.F → Text) where
  open fl use {F, of_nat, div}

  -- `fmt.Sprintf("%.2f <label>", float64(b)/float64(unit))`; `format_2f` is the verb `%.2f`
  scaled : ℕ → ℕ → Text → Text
  scaled b unit label = format_2f (div (of_nat b) (of_nat unit)) ++ label

  unfoldable pub human_nat : ℕ → Text
  unfolding scaled
  human_nat b =
      if not (ltb b tb)
      then scaled b tb (codes " TB")
      else if not (ltb b gb)
      then scaled b gb (codes " GB")
      else if not (ltb b mb)
      then scaled b mb (codes " MB")
      else if not (ltb b kb)
      then scaled b kb (codes " KB")
      else itoa b ++ codes " B"

  -- no negative number reaches a unit
  unfoldable pub human_size : ℤ → Text
  unfolding human_nat
  human_size (pos b) = human_nat b
  human_size (negsuc n) = b'-' ∷ (itoa (n + 1) ++ codes " B")

  entry : Text → Totals → Text → FolderEntry
  unfolding human_size
  entry p t error = record {
    path = p;
    size_bytes = t.bytes;
    size_human = human_size (of_word t.bytes);
    file_count = t.files;
    error = error;
  }

  entry_of : Text → Measured → FolderEntry
  unfolding entry
  entry_of p (measured t) = entry p t []
  entry_of p (failed e) = entry p zero_totals e

  unfoldable pub print_json : FileSystem → List Text → List FolderEntry
  unfolding entry_of
  print_json fs [] = []
  print_json fs (p ∷ ps) = entry_of p (measure_dir fs p) ∷ print_json fs ps

  collect_paths : FileSystem → List Text → Exit
  unfolding print_json
  collect_paths fs [] = record { stdout = nothing; code = 1 }
  collect_paths fs (p ∷ ps) = record { stdout = entries (print_json fs (p ∷ ps)); code = 0 }

  unfoldable pub main : FileSystem → Flags → Exit
  unfolding collect_paths
  main fs f = elim f.describe [
    | true ↦ record { stdout = metadata; code = 0 }
    | false ↦ elim f.collect [
      | true ↦ collect_paths fs f.paths
      | false ↦ record { stdout = nothing; code = 2 }
    ]
  ]
