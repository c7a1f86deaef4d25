-- ===== src/DirSize/Output.antt =====
-- What the Prometheus parser of internal/collectors makes of the output of the dir-size plugin.
use limiz.Base.{
  Text, List, [], ◌∷◌, ◌++◌, codes, insert, lookup, lookup_text, text_eq, ◌≡◌, refl, sym, ap, ◌∙◌,
  arith, All, append_assoc, append-nil,
}
use limiz.Strings.Affix.{has_prefix, cut}
use limiz.Strings.Trim.{is_space}
use limiz.Strings.Fields.{fields}
use limiz.Strings.Lines.{scan_lines, byte_length}
use limiz.Floats.{Floats}
use limiz.Collectors.Metric.{Metric, gauge}
use limiz.Collectors.Registry.{sample_line}
use limiz.Collectors.Parser.{State, start, read_line, parse_prometheus_text}
use limiz.Collectors.Parser.Labels.{IsValue}
use limiz.Collectors.Parser.Reading.{PrintsNumbers, IsPrintable, run, run-line, run-blank}
use limiz.Collectors.Parser.Samples.{sample_line-IsLine, read_line-sample_line}
use limiz.DirWalk.{FileSystem}
use limiz.DirSize.{print_metrics}
use limiz.DirSize.Metrics.{
  size_metric, count_metric, metrics_of, sample_lines, size_lines-sample_lines,
  count_lines-sample_lines, Fits, Knows,
}
use limiz.DirSize.Printable.{size_metric-IsPrintable, count_metric-IsPrintable, metrics_of-All}

module _ (fl : Floats) where
  open fl use {F, format_g}

  -- the parser behind the first header, and behind the second
  abbrev size_state : State fl
  size_state = record {
    metrics = [];
    helps = (codes "plugin_dir_size_bytes", codes "Total directory size (bytes)") ∷ [];
    types = (codes "plugin_dir_size_bytes", gauge) ∷ [];
  }

  abbrev count_state : List (Metric F) → State fl
  count_state ms = record {
    metrics = ms;
    helps =
        (codes "plugin_dir_size_bytes", codes "Total directory size (bytes)")
        ∷ (codes "plugin_dir_file_count", codes "Total number of files in directory")
        ∷ [];
    types = (codes "plugin_dir_size_bytes", gauge) ∷ (codes "plugin_dir_file_count", gauge) ∷ [];
  }

  module _ (nums : PrintsNumbers fl) where
    run-sample_lines :
        (ms : List (Metric F)) (st : State fl) (rest : Text)
        → All (IsPrintable fl) ms
        → All (Knows fl st) ms
        → run fl st (sample_lines fl ms ++ rest)
          ≡ run fl (record st { metrics = st.metrics ++ ms }) rest
    unfolding sample_lines
    run-sample_lines [] st rest p k = rw append-nil refl
    run-sample_lines (m ∷ ms) st rest p k =
        ap (run fl st) (append_assoc (sample_line fl m) (b'\n' ∷ sample_lines fl ms) rest)
        ∙ run-line fl st (sample_line fl m) (sample_lines fl ms ++ rest)
            (sample_line-IsLine fl nums m p.0)
        ∙ ap (λ t. run fl t (sample_lines fl ms ++ rest))
            (read_line-sample_line fl nums m p.0 st k.0.0 k.0.1)
        ∙ run-sample_lines ms (record st { metrics = st.metrics ++ m ∷ [] }) rest p.1 k.1
        ∙ ap (λ t. run fl (record st { metrics = t }) rest) (append_assoc st.metrics (m ∷ []) ms)

    -- the `# HELP` and the `# TYPE` line of a name are read
    run-size_header :
        (rest : Text)
        → run fl (start fl) (
            codes "# HELP plugin_dir_size_bytes Total directory size (bytes)\n"
            ++ (codes "# TYPE plugin_dir_size_bytes gauge\n" ++ rest))
          ≡ run fl size_state rest
    unfolding read_line has_prefix cut byte_length is_space insert fields
    run-size_header rest =
        run-line fl (start fl) (codes "# HELP plugin_dir_size_bytes Total directory size (bytes)")
          (codes "# TYPE plugin_dir_size_bytes gauge\n" ++ rest)
          (record { no_break = omega arith; fits = omega arith; starts = refl; ends = refl })
        ∙ run-line fl _ (codes "# TYPE plugin_dir_size_bytes gauge") rest
            (record { no_break = omega arith; fits = omega arith; starts = refl; ends = refl })

    run-count_header :
        (ms : List (Metric F)) (rest : Text)
        → run fl
            (record size_state { metrics = ms })
            (b'\n' ∷ codes "# HELP plugin_dir_file_count Total number of files in directory\n"
              ++ (codes "# TYPE plugin_dir_file_count gauge\n" ++ rest))
          ≡ run fl (count_state ms) rest
    unfolding read_line has_prefix cut byte_length is_space insert fields text_eq
    run-count_header ms rest =
        run-blank fl (record size_state { metrics = ms }) _
        ∙ run-line fl (record size_state { metrics = ms })
            (codes "# HELP plugin_dir_file_count Total number of files in directory")
            (codes "# TYPE plugin_dir_file_count gauge\n" ++ rest)
            (record { no_break = omega arith; fits = omega arith; starts = refl; ends = refl })
        ∙ run-line fl _ (codes "# TYPE plugin_dir_file_count gauge") rest
            (record { no_break = omega arith; fits = omega arith; starts = refl; ends = refl })

    size_known :
        (lookup_text (codes "plugin_dir_size_bytes") size_state.helps
          ≡ codes "Total directory size (bytes)")
        × (lookup_text (codes "plugin_dir_size_bytes") size_state.types ≡ gauge)
    unfolding lookup_text lookup text_eq
    size_known = (refl, refl)

    count_known :
        (ms : List (Metric F))
        → (lookup_text (codes "plugin_dir_file_count") (count_state ms).helps
            ≡ codes "Total number of files in directory")
          × (lookup_text (codes "plugin_dir_file_count") (count_state ms).types ≡ gauge)
    unfolding lookup_text lookup text_eq
    count_known ms = (refl, refl)

    module _ (fs : FileSystem) (paths : List Text) (v : All IsValue paths)
        (fits_size : All (Fits fl) (metrics_of fl (size_metric fl) fs paths))
        (fits_count : All (Fits fl) (metrics_of fl (count_metric fl) fs paths)) where
      abbrev sizes : List (Metric F)
      sizes = metrics_of fl (size_metric fl) fs paths

      abbrev counts : List (Metric F)
      counts = metrics_of fl (count_metric fl) fs paths

      run-sizes :
          (rest : Text)
          → run fl size_state (sample_lines fl sizes ++ rest)
            ≡ run fl (record size_state { metrics = sizes }) rest
      run-sizes rest =
          run-sample_lines sizes size_state rest
            (metrics_of-All fl (size_metric fl) (IsPrintable fl) (size_metric-IsPrintable fl) fs
              paths v fits_size)
            (metrics_of-All fl (size_metric fl) (Knows fl size_state) (λ p t _ _. size_known) fs
              paths v fits_size)

      run-counts :
          run fl (count_state sizes) (sample_lines fl counts) ≡ count_state (sizes ++ counts)
      unfolding scan_lines
      run-counts =
          ap (run fl (count_state sizes)) (sym (append-nil (sample_lines fl counts)))
          ∙ run-sample_lines counts (count_state sizes) []
              (metrics_of-All fl (count_metric fl) (IsPrintable fl) (count_metric-IsPrintable fl) fs
                paths v fits_count)
              (metrics_of-All fl (count_metric fl) (Knows fl (count_state sizes))
                (λ p t _ _. count_known sizes) fs paths v fits_count)

      run-print_metrics :
          run fl (start fl) (print_metrics fl fs paths) ≡ count_state (sizes ++ counts)
      unfolding print_metrics
      run-print_metrics =
          rw (size_lines-sample_lines fl fs paths, count_lines-sample_lines fl fs paths)
            (run-size_header _
              ∙ run-sizes _
              ∙ run-count_header sizes (sample_lines fl counts)
              ∙ run-counts)

    -- The output of the plugin, parsed, is one size metric for each path that can be measured, in the
    -- order of the paths, and then one file count for each of them; a path that cannot be measured
    -- has neither. No path has a quotation mark, a closing brace or a line break, and each line
    -- fits in the buffer of the scanner.
    pub parse_prometheus_text-print_metrics :
        (fs : FileSystem) (paths : List Text)
        → All IsValue paths
        → All (Fits fl) (metrics_of fl (size_metric fl) fs paths)
        → All (Fits fl) (metrics_of fl (count_metric fl) fs paths)
        → parse_prometheus_text fl (print_metrics fl fs paths)
          ≡ metrics_of fl (size_metric fl) fs paths ++ metrics_of fl (count_metric fl) fs paths
    unfolding parse_prometheus_text
    parse_prometheus_text-print_metrics fs paths v fits_size fits_count =
        ap (λ (st : State fl). st.metrics) (run-print_metrics fs paths v fits_size fits_count)
