-- ===== src/DirSize.antt =====
-- plugins-src/dir-size/main.go: what the plugin prints to its standard output, and its exit code. The
-- warnings on the standard error are left out. `flag.Parse` has read the flags.
pub mod Metrics
pub mod Printable
pub mod Output
use limiz.Base.{
  ℕ, suc, ◌+◌, Text, List, [], ◌∷◌, ◌++◌, map, Bool, true, false, codes, pos, negsuc, ℤ, of_word,
}
use limiz.Floats.{Floats}
use limiz.DirWalk.{Measured, measured, failed, Totals, FileSystem, measure_dir}

pub record Result : Type 0 where
  pub path : Text
  pub outcome : Measured

unfoldable pub result_of : FileSystem → Text → Result
result_of fs p = record { path = p; outcome = measure_dir fs p }

pub record Flags : Type 0 where
  pub collect : Bool
  pub describe : Bool
  pub paths : List Text

-- the standard output and the exit code
pub record Exit : Type 0 where
  pub stdout : Text
  pub code : ℕ

abbrev metadata : Text
metadata =
    codes
      "{\n  \"name\": \"dir-size\",\n  \"version\": \"1.0.0\",\n  \"description\": \"Measures directory size (bytes) and file count\",\n  \"author\":  \"limiz\",\n  \"platform\": [\"linux\", \"windows\"]\n}\n"

module _ (fl : Floats) where
  open fl use {F, format_g, of_nat, sub}

  -- `float64(n)` of an int64, given by its bits
  unfoldable pub of_int64 : ℕ → F
  of_int64 w = elim (of_word w) [ pos n ↦ of_nat n | negsuc n ↦ sub (of_nat 0) (of_nat (n + 1)) ]

  -- a line of the form `<name>{path="<path>"} <value>`
  unfoldable pub print_sample : Text → Text → F → Text
  print_sample name path value =
      name ++ (codes "{path=\"" ++ (path ++ (codes "\"} " ++ (format_g value ++ b'\n' ∷ []))))

  unfoldable pub size_line : Text → Measured → Text
  unfolding print_sample of_int64
  size_line path (failed e) = []
  size_line path (measured t) = print_sample (codes "plugin_dir_size_bytes") path (of_int64 t.bytes)

  unfoldable pub count_line : Text → Measured → Text
  unfolding print_sample of_int64
  count_line path (failed e) = []
  count_line path (measured t) =
      print_sample (codes "plugin_dir_file_count") path (of_int64 t.files)

  unfoldable pub size_lines : List Result → Text
  unfolding size_line
  size_lines [] = []
  size_lines (r ∷ rs) = size_line r.path r.outcome ++ size_lines rs

  unfoldable pub count_lines : List Result → Text
  unfolding count_line
  count_lines [] = []
  count_lines (r ∷ rs) = count_line r.path r.outcome ++ count_lines rs

  unfoldable pub print_metrics : FileSystem → List Text → Text
  unfolding size_lines count_lines result_of
  print_metrics fs paths =
      let results = map (result_of fs) paths in
      codes "# HELP plugin_dir_size_bytes Total directory size (bytes)\n"
      ++ (codes "# TYPE plugin_dir_size_bytes gauge\n"
          ++ (size_lines results
              ++ (b'\n' ∷ codes "# HELP plugin_dir_file_count Total number of files in directory\n"
                  ++ (codes "# TYPE plugin_dir_file_count gauge\n" ++ count_lines results))))

  -- `-collect` without a path
  collect_paths : FileSystem → List Text → Exit
  unfolding print_metrics
  collect_paths fs [] = record { stdout = []; code = 1 }
  collect_paths fs (p ∷ ps) = record { stdout = print_metrics fs (p ∷ ps); code = 0 }

  -- `main`, whose `switch` asks for `-describe` first
  unfoldable pub main : FileSystem → Flags → Exit
  unfolding collect_paths
  main fs f = elim f.describe [
    | true ↦ record { stdout = metadata; code = 0 }
    | false ↦ elim f.collect [
      | true ↦ collect_paths fs f.paths
      | false ↦ record { stdout = []; code = 2 }
    ]
  ]
