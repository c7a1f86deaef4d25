-- ===== src/DirSize/Printable.antt =====
-- The metrics of the dir-size plugin are such as the Prometheus parser reads back.
use limiz.Base.{Text, List, [], ◌∷◌, codes, refl, arith, All, All-append, All-left, All-right}
use limiz.Strings.Trim.{is_space}
use limiz.Strings.Lines.{byte_length}
use limiz.Floats.{Floats}
use limiz.Collectors.Metric.{Metric}
use limiz.Collectors.Registry.{help_line, type_line}
use limiz.Collectors.Parser.Labels.{IsValue, IsLabel}
use limiz.Collectors.Parser.Reading.{IsPrintable}
use limiz.DirWalk.{Measured, measured, failed, Totals, FileSystem, measure_dir}
use limiz.DirSize.Metrics.{size_metric, count_metric, metric_of, metrics_of, Fits}

module _ (fl : Floats) where
  open fl use {F, format_g}

  path-IsLabel : (p : Text) → IsValue p → IsLabel (codes "path", p)
  unfolding is_space
  path-IsLabel p v = record {
    key = record {
      nonempty = cc;
      starts = refl;
      ends = refl;
      no_equals = omega arith;
      no_quote = omega arith;
      no_comma = omega arith;
      no_brace = omega arith;
      no_break = omega arith;
    };
    value = v;
  }

  pub size_metric-IsPrintable :
      (p : Text) (t : Totals)
      → IsValue p
      → Fits fl (size_metric fl p t)
      → IsPrintable fl (size_metric fl p t)
  unfolding is_space help_line type_line byte_length
  size_metric-IsPrintable p t v f = record {
    name_nonempty = cc;
    name_solid = ground arith;
    name_no_brace = omega arith;
    name_no_hash = refl;
    help_nonempty = cc;
    help_no_break = omega arith;
    help_ends = refl;
    type_nonempty = cc;
    type_solid = ground arith;
    labels = (path-IsLabel p v, tt);
    unique = (tt, tt);
    help_fits = omega arith;
    type_fits = omega arith;
    sample_fits = f;
  }

  pub count_metric-IsPrintable :
      (p : Text) (t : Totals)
      → IsValue p
      → Fits fl (count_metric fl p t)
      → IsPrintable fl (count_metric fl p t)
  unfolding is_space help_line type_line byte_length
  count_metric-IsPrintable p t v f = record {
    name_nonempty = cc;
    name_solid = ground arith;
    name_no_brace = omega arith;
    name_no_hash = refl;
    help_nonempty = cc;
    help_no_break = omega arith;
    help_ends = refl;
    type_nonempty = cc;
    type_solid = ground arith;
    labels = (path-IsLabel p v, tt);
    unique = (tt, tt);
    help_fits = omega arith;
    type_fits = omega arith;
    sample_fits = f;
  }

  module _ (metric : Text → Totals → Metric F) (R : Metric F → Type 0)
      (holds : (p : Text) (t : Totals) → IsValue p → Fits fl (metric p t) → R (metric p t)) where
    metric_of-All :
        (p : Text) (o : Measured)
        → IsValue p
        → All (Fits fl) (metric_of fl metric p o)
        → All R (metric_of fl metric p o)
    unfolding metric_of
    metric_of-All p (measured t) v f = (holds p t v f.0, tt)
    metric_of-All p (failed e) v f = tt

    pub metrics_of-All :
        (fs : FileSystem) (ps : List Text)
        → All IsValue ps
        → All (Fits fl) (metrics_of fl metric fs ps)
        → All R (metrics_of fl metric fs ps)
    unfolding metrics_of
    metrics_of-All fs [] v f = tt
    metrics_of-All fs (p ∷ ps) v f =
        let here = metric_of fl metric p (measure_dir fs p) in
        let rest = metrics_of fl metric fs ps in
        All-append R here rest
          (metric_of-All p (measure_dir fs p) v.0 (All-left (Fits fl) here rest f))
          (metrics_of-All fs ps v.1 (All-right (Fits fl) here rest f))
