-- ===== src/Collectors/Linux/Loadavg.antt =====
-- internal/collectors/loadavg_linux.go and uptime_linux.go.
pub mod Types
use limiz.Base.{ℕ, Text, String, List, [], ◌∷◌, ◌++◌, Bool, true, false, Option, none, some, codes}
use limiz.Strings.Fields.{fields}
use limiz.Floats.{Floats}
use limiz.Collectors.Metric.{Metric, gauge}

module _ (fl : Floats) where
  open fl use {F, parse_float, of_nat, sub}

  abbrev pub plain_gauge : String → String → F → Metric F
  plain_gauge name help v = record {
    name = codes name;
    help = codes help;
    type = gauge;
    labels = [];
    value = v;
  }

  -- a field that is no number is skipped
  load_metric : String → String → F × Bool → List (Metric F)
  load_metric name help (v, true) = plain_gauge name help v ∷ []
  load_metric name help (v, false) = []

  load_fields : List Text → List (Metric F)
  unfolding load_metric
  load_fields (a ∷ b ∷ c ∷ rest) =
      load_metric "node_load1" "1 minute load average." (parse_float a)
      ++ (load_metric "node_load5" "5 minute load average." (parse_float b)
          ++ load_metric "node_load15" "15 minute load average." (parse_float c))
  load_fields _ = []

  unfoldable pub collect_loadavg : Option Text → List (Metric F)
  unfolding load_fields
  collect_loadavg none = []
  collect_loadavg (some loadavg) = load_fields (fields loadavg)

  -- the two readings of the clock, in seconds
  uptime_value : ℕ → ℕ → F × Bool → List (Metric F)
  uptime_value now later (uptime, false) = []
  uptime_value now later (uptime, true) =
      plain_gauge "node_boot_time_seconds" "Node boot time in seconds since epoch."
        (sub (of_nat now) uptime)
      ∷ plain_gauge "node_time_seconds" "Current system time in seconds since epoch." (of_nat later)
      ∷ []

  uptime_fields : ℕ → ℕ → List Text → List (Metric F)
  unfolding uptime_value
  uptime_fields now later [] = []
  uptime_fields now later (a ∷ rest) = uptime_value now later (parse_float a)

  unfoldable pub collect_uptime : ℕ → ℕ → Option Text → List (Metric F)
  unfolding uptime_fields
  collect_uptime now later none = []
  collect_uptime now later (some uptime) = uptime_fields now later (fields uptime)
