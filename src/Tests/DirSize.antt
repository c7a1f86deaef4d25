-- ===== src/Tests/DirSize.antt =====
-- The plugins of plugins-src at concrete inputs.
use limiz.Base.{
  List, Text, [], ◌∷◌, ◌++◌, ◌≡◌, true, false, arith, refl, some, none, codes, text_eq,
  if◌then◌else◌,
}
use limiz.Strings.Lines.{byte_length}
use limiz.Strconv.Decimal.{itoa}
use limiz.Collectors.Registry.{sample_line}
use limiz.Collectors.Parser.{parse_prometheus_text}
use limiz.DirWalk.{
  Node, file, symlink, directory, nil, cons, missing, found, FileSystem, measured, measure_dir,
}
use limiz.DirWalk.Sizes.{sizes, measure_dir-sizes}
use limiz.DirSize.{print_metrics, of_int64}
use limiz.DirSize.Metrics.{size_metric, count_metric, metrics_of}
use limiz.DirSize.Output.{parse_prometheus_text-print_metrics}
use limiz.Tests.Numbers.{naturals, naturals-PrintsNumbers}

abbrev log_dir : Node
log_dir = directory false (
    cons (codes "app") (directory true (cons (codes "a.log") (file (some 40)) nil)) (
      cons (codes "link") symlink
        (cons (codes "syslog") (file (some 1000)) (cons (codes "tmp") (file none) nil))))

abbrev files : FileSystem
files = record {
  stat = λ p. if text_eq p (codes "/var/log") then found true else missing (codes "no such file");
  lstat = λ p. if text_eq p (codes "/var/log") then some log_dir else none;
}

abbrev paths : List Text
paths = codes "/var/log" ∷ codes "/nowhere" ∷ []

printed :
    print_metrics naturals files paths
    ≡ codes
        "# HELP plugin_dir_size_bytes Total directory size (bytes)\n# TYPE plugin_dir_size_bytes gauge\nplugin_dir_size_bytes{path=\"/var/log\"} 1040\n\n# HELP plugin_dir_file_count Total number of files in directory\n# TYPE plugin_dir_file_count gauge\nplugin_dir_file_count{path=\"/var/log\"} 2\n"
unfolding print_metrics measure_dir text_eq itoa
printed = refl

measure_dir-sizes_example :
    measure_dir files (codes "/var/log") ≡ measured (record { bytes = 1040; files = 2 })
unfolding text_eq sizes
measure_dir-sizes_example =
    measure_dir-sizes files (codes "/var/log") log_dir refl refl (omega arith) (omega arith)

parse_prometheus_text-print_metrics_example :
    parse_prometheus_text naturals (print_metrics naturals files paths)
    ≡ metrics_of naturals (size_metric naturals) files paths
      ++ metrics_of naturals (count_metric naturals) files paths
unfolding metrics_of measure_dir text_eq itoa sample_line byte_length of_int64
parse_prometheus_text-print_metrics_example =
    parse_prometheus_text-print_metrics naturals naturals-PrintsNumbers files paths
      (
        record { no_quote = omega arith; no_brace = omega arith; no_break = omega arith },
        (record { no_quote = omega arith; no_brace = omega arith; no_break = omega arith }, tt),
      )
      (omega arith, tt) (omega arith, tt)
