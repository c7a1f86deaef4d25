-- ===== src/DirSize/Metrics.antt =====
-- The metrics that the dir-size plugin prints, and their lines in its output.
use limiz.Base.{
  Text, List, [], ◌∷◌, ◌++◌, codes, map, lookup_text, ◌≡◌, ◌<◌, refl, sym, ap, ◌∙◌, append_assoc,
}
use limiz.Strings.Lines.{byte_length, max_scan_token_size}
use limiz.Floats.{Floats}
use limiz.Collectors.Metric.{Metric, gauge}
use limiz.Collectors.Registry.{sample_line, label_text, label_part}
use limiz.Collectors.Parser.{State}
use limiz.DirWalk.{Measured, measured, failed, Totals, FileSystem, measure_dir}
use limiz.DirSize.{
  result_of, of_int64, size_line, count_line, size_lines, count_lines, print_sample,
}

module _ (fl : Floats) where
  open fl use {F, format_g}

  abbrev pub path_metric : Text → Text → Text → F → Metric F
  path_metric name help path v = record {
    name = name;
    help = help;
    type = gauge;
    labels = (codes "path", path) ∷ [];
    value = v;
  }

  abbrev pub size_metric : Text → Totals → Metric F
  size_metric path t =
      path_metric (codes "plugin_dir_size_bytes") (codes "Total directory size (bytes)") path
        (of_int64 fl t.bytes)

  abbrev pub count_metric : Text → Totals → Metric F
  count_metric path t =
      path_metric (codes "plugin_dir_file_count") (codes "Total number of files in directory") path
        (of_int64 fl t.files)

  -- the metric of a path, if it can be measured
  unfoldable pub metric_of : (Text → Totals → Metric F) → Text → Measured → List (Metric F)
  metric_of metric p (measured t) = metric p t ∷ []
  metric_of metric p (failed e) = []

  unfoldable pub metrics_of : (Text → Totals → Metric F) → FileSystem → List Text → List (Metric F)
  unfolding metric_of
  metrics_of metric fs [] = []
  metrics_of metric fs (p ∷ ps) = metric_of metric p (measure_dir fs p) ++ metrics_of metric fs ps

  unfoldable pub sample_lines : List (Metric F) → Text
  sample_lines [] = []
  sample_lines (m ∷ ms) = sample_line fl m ++ b'\n' ∷ sample_lines ms

  print_sample-sample_line :
      (name help path : Text) (v : F)
      → print_sample fl name path v ≡ sample_line fl (path_metric name help path v) ++ b'\n' ∷ []
  unfolding print_sample sample_line label_text label_part
  print_sample-sample_line name help path v = simp append_assoc

  sample_lines-append :
      (ms ns : List (Metric F)) → sample_lines (ms ++ ns) ≡ sample_lines ms ++ sample_lines ns
  unfolding sample_lines
  sample_lines-append [] ns = refl
  sample_lines-append (m ∷ ms) ns =
      ap (λ t. sample_line fl m ++ b'\n' ∷ t) (sample_lines-append ms ns)
      ∙ sym (append_assoc (sample_line fl m) (b'\n' ∷ sample_lines ms) (sample_lines ns))

  size_line-metric_of :
      (p : Text) (o : Measured) → size_line fl p o ≡ sample_lines (metric_of size_metric p o)
  unfolding size_line sample_lines metric_of
  size_line-metric_of p (failed e) = refl
  size_line-metric_of p (measured t) = print_sample-sample_line _ _ p _

  count_line-metric_of :
      (p : Text) (o : Measured) → count_line fl p o ≡ sample_lines (metric_of count_metric p o)
  unfolding count_line sample_lines metric_of
  count_line-metric_of p (failed e) = refl
  count_line-metric_of p (measured t) = print_sample-sample_line _ _ p _

  pub size_lines-sample_lines :
      (fs : FileSystem) (ps : List Text)
      → size_lines fl (map (result_of fs) ps) ≡ sample_lines (metrics_of size_metric fs ps)
  unfolding size_lines sample_lines metrics_of result_of
  size_lines-sample_lines fs [] = refl
  size_lines-sample_lines fs (p ∷ ps) =
      rw (size_line-metric_of p (measure_dir fs p), size_lines-sample_lines fs ps)
        (sym (sample_lines-append (metric_of size_metric p (measure_dir fs p)) _))

  pub count_lines-sample_lines :
      (fs : FileSystem) (ps : List Text)
      → count_lines fl (map (result_of fs) ps) ≡ sample_lines (metrics_of count_metric fs ps)
  unfolding count_lines sample_lines metrics_of result_of
  count_lines-sample_lines fs [] = refl
  count_lines-sample_lines fs (p ∷ ps) =
      rw (count_line-metric_of p (measure_dir fs p), count_lines-sample_lines fs ps)
        (sym (sample_lines-append (metric_of count_metric p (measure_dir fs p)) _))

  abbrev pub Knows : State fl → Metric F → Type 0
  Knows st m = (lookup_text m.name st.helps ≡ m.help) × (lookup_text m.name st.types ≡ m.type)

  abbrev pub Fits : Metric F → Type 0
  Fits m = byte_length (sample_line fl m) < max_scan_token_size
