-- ===== src/Collectors/Linux/Loadavg/Types.antt =====
-- internal/collectors/loadavg_linux.go and uptime_linux.go: the types of the metrics.
use limiz.Base.{
  ◌≡◌, refl, ℕ, Text, String, List, [], ◌∷◌, Bool, true, false, Option, none, some, codes, All,
  All-append,
}
use limiz.Strings.Affix.{has_prefix, has_suffix}
use limiz.Strings.Fields.{fields}
use limiz.Floats.{Floats}
use limiz.Collectors.Metric.{gauge}
use limiz.Collectors.Types.{IsTyped, type_of}
use limiz.Collectors.Linux.Loadavg.{
  load_metric, load_fields, collect_loadavg, uptime_value, uptime_fields, collect_uptime,
}

module _ (fl : Floats) where
  open fl use {F, parse_float}

  load_metric-IsTyped :
      (name help : String) (v : F × Bool)
      → gauge ≡ type_of (codes name)
      → All IsTyped (load_metric fl name help v)
  unfolding load_metric
  load_metric-IsTyped name help (v, true) h = (h, tt)
  load_metric-IsTyped name help (v, false) h = tt

  load_fields-IsTyped : (fs : List Text) → All IsTyped (load_fields fl fs)
  unfolding load_fields type_of has_suffix has_prefix
  load_fields-IsTyped [] = tt
  load_fields-IsTyped (a ∷ []) = tt
  load_fields-IsTyped (a ∷ b ∷ []) = tt
  load_fields-IsTyped (a ∷ b ∷ c ∷ rest) =
      All-append IsTyped _ _
        (load_metric-IsTyped "node_load1" "1 minute load average." (parse_float a) refl)
        (All-append IsTyped _ _
          (load_metric-IsTyped "node_load5" "5 minute load average." (parse_float b) refl)
          (load_metric-IsTyped "node_load15" "15 minute load average." (parse_float c) refl))

  pub collect_loadavg-IsTyped : (loadavg : Option Text) → All IsTyped (collect_loadavg fl loadavg)
  unfolding collect_loadavg
  collect_loadavg-IsTyped none = tt
  collect_loadavg-IsTyped (some loadavg) = load_fields-IsTyped (fields loadavg)

  uptime_value-IsTyped : (now later : ℕ) (v : F × Bool) → All IsTyped (uptime_value fl now later v)
  unfolding uptime_value type_of has_suffix has_prefix
  uptime_value-IsTyped now later (uptime, false) = tt
  uptime_value-IsTyped now later (uptime, true) = (refl, (refl, tt))

  uptime_fields-IsTyped :
      (now later : ℕ) (fs : List Text) → All IsTyped (uptime_fields fl now later fs)
  unfolding uptime_fields
  uptime_fields-IsTyped now later [] = tt
  uptime_fields-IsTyped now later (a ∷ rest) = uptime_value-IsTyped now later (parse_float a)

  pub collect_uptime-IsTyped :
      (now later : ℕ) (uptime : Option Text) → All IsTyped (collect_uptime fl now later uptime)
  unfolding collect_uptime
  collect_uptime-IsTyped now later none = tt
  collect_uptime-IsTyped now later (some uptime) = uptime_fields-IsTyped now later (fields uptime)
