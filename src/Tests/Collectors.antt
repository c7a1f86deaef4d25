-- ===== src/Tests/Collectors.antt =====
-- internal/collectors at concrete inputs.
use limiz.Base.{
  ℕ, Text, [], ◌∷◌, ◌≡◌, arith, refl, codes, lookup, insert, lookup_text, text_eq, text_eq→ne,
}
use limiz.Strings.Trim.{is_space, trim_space, trim}
use limiz.Strings.Affix.{has_prefix, cut}
use limiz.Strings.Fields.{fields}
use limiz.Strings.Lines.{scan_lines, byte_length}
use limiz.Strconv.Decimal.{itoa, parse_nat}
use limiz.Collectors.Metric.{Metric, Collector, Registry, gauge}
use limiz.Collectors.Registry.{collect, collect_raw, help_line, type_line, sample_line}
use limiz.Collectors.Parser.{parse_prometheus_text}
use limiz.Collectors.Parser.Labels.{IsLabel}
use limiz.Collectors.Parser.Reading.{IsPrintable}
use limiz.Collectors.RoundTrip.{Catalog, IsListed, parse_prometheus_text-collect}
use limiz.Tests.Numbers.{naturals, naturals-PrintsNumbers, solid}

abbrev size_name : Text
size_name = codes "plugin_dir_size_bytes"

abbrev size_help : Text
size_help = codes "Total directory size (bytes)"

abbrev log_size : Metric ℕ
log_size = record {
  name = size_name;
  help = size_help;
  type = gauge;
  labels = (codes "path", codes "/var/log, old") ∷ (codes "unit", codes "b") ∷ [];
  value = 1073;
}

abbrev lib_size : Metric ℕ
lib_size = record log_size { labels = []; value = 12 }

abbrev dir_size : Collector Unit ℕ
dir_size = record { name = codes "dir-size"; collect = λ w. (w, log_size ∷ lib_size ∷ []) }

abbrev registry : Registry Unit ℕ
registry = record { collectors = dir_size ∷ dir_size ∷ [] }

exposition :
    (collect naturals (record registry { collectors = dir_size ∷ [] }) tt).1
    ≡ codes
        "# HELP plugin_dir_size_bytes Total directory size (bytes)\n# TYPE plugin_dir_size_bytes gauge\nplugin_dir_size_bytes{path=\"/var/log, old\",unit=\"b\"} 1073\nplugin_dir_size_bytes 12\n\n"
unfolding collect lookup insert itoa text_eq
exposition = refl

-- a brace in a quoted value ends the labels, and the sample is lost
brace_in_value :
    parse_prometheus_text naturals (codes "size{path=\"/a}b\"} 7\nsize{path=\"/c\"} 8\n")
    ≡ record {
      name = codes "size";
      help = [];
      type = [];
      labels = (codes "path", codes "/c") ∷ [];
      value = 8;
    }
      ∷ []
unfolding parse_prometheus_text scan_lines trim_space has_prefix cut fields lookup lookup_text
    insert trim parse_nat text_eq
brace_in_value = refl

abbrev cat : Catalog naturals
cat = record { help = λ _. size_help; type = λ _. gauge }

path-IsLabel : IsLabel (codes "path", codes "/var/log, old")
unfolding is_space
path-IsLabel = record {
  key = record {
    nonempty = cc;
    starts = refl;
    ends = refl;
    no_equals = omega arith;
    no_quote = omega arith;
    no_comma = omega arith;
    no_brace = omega arith;
    no_break = omega arith;
  };
  value = record { no_quote = omega arith; no_brace = omega arith; no_break = omega arith };
}

unit-IsLabel : IsLabel (codes "unit", codes "b")
unfolding is_space
unit-IsLabel = record {
  key = record {
    nonempty = cc;
    starts = refl;
    ends = refl;
    no_equals = omega arith;
    no_quote = omega arith;
    no_comma = omega arith;
    no_brace = omega arith;
    no_break = omega arith;
  };
  value = record { no_quote = omega arith; no_brace = omega arith; no_break = omega arith };
}

log_size-IsPrintable : IsPrintable naturals log_size
unfolding is_space help_line type_line sample_line byte_length itoa text_eq
log_size-IsPrintable = record {
  name_nonempty = cc;
  name_solid = solid size_name refl;
  name_no_brace = omega arith;
  name_no_hash = refl;
  help_nonempty = cc;
  help_no_break = omega arith;
  help_ends = refl;
  type_nonempty = cc;
  type_solid = solid gauge refl;
  labels = (path-IsLabel, (unit-IsLabel, tt));
  unique = ((text_eq→ne (codes "unit") (codes "path") refl, tt), (tt, tt));
  help_fits = omega arith;
  type_fits = omega arith;
  sample_fits = omega arith;
}

lib_size-IsPrintable : IsPrintable naturals lib_size
unfolding is_space help_line type_line sample_line byte_length itoa
lib_size-IsPrintable = record {
  name_nonempty = cc;
  name_solid = solid size_name refl;
  name_no_brace = omega arith;
  name_no_hash = refl;
  help_nonempty = cc;
  help_no_break = omega arith;
  help_ends = refl;
  type_nonempty = cc;
  type_solid = solid gauge refl;
  labels = tt;
  unique = tt;
  help_fits = omega arith;
  type_fits = omega arith;
  sample_fits = omega arith;
}

log_size-IsListed : IsListed naturals cat log_size
log_size-IsListed = record { printable = log_size-IsPrintable; help = refl; type = refl }

lib_size-IsListed : IsListed naturals cat lib_size
lib_size-IsListed = record { printable = lib_size-IsPrintable; help = refl; type = refl }

parse_prometheus_text-collect_example :
    parse_prometheus_text naturals (collect naturals registry tt).1 ≡ (collect_raw registry tt).1
parse_prometheus_text-collect_example =
    parse_prometheus_text-collect naturals naturals-PrintsNumbers cat registry tt (
      unfold collect_raw in
      (log_size-IsListed, (lib_size-IsListed, (log_size-IsListed, (lib_size-IsListed, tt)))))
