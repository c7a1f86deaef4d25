-- ===== src/Collectors/Linux/Network.antt =====
-- internal/collectors/network_linux.go.
pub mod Types
use limiz.Base.{
  Text, String, List, [], ◌∷◌, ◌++◌, Option, none, some, codes, if◌then◌else◌, text_eq, ltb, length,
  drop,
}
use limiz.Strings.Affix.{cut}
use limiz.Strings.Trim.{trim_space}
use limiz.Strings.Fields.{fields}
use limiz.Strings.Lines.{scan_lines}
use limiz.Floats.{Floats}
use limiz.Collectors.Metric.{Metric, counter}
use limiz.Collectors.Disk.{parse_field}

module _ (fl : Floats) where
  open fl use {F}

  abbrev metric : Text → String → String → F → Metric F
  metric iface name help v = record {
    name = codes name;
    help = codes help;
    type = counter;
    labels = (codes "device", iface) ∷ [];
    value = v;
  }

  receive_metrics : Text → List Text → List (Metric F)
  unfolding parse_field
  receive_metrics iface fs =
      metric iface "node_network_receive_bytes_total" "Network bytes received."
        (parse_field fl fs 0)
      ∷ metric iface "node_network_receive_packets_total" "Network packets received."
          (parse_field fl fs 1)
      ∷ metric iface "node_network_receive_errs_total" "Network receive errors."
          (parse_field fl fs 2)
      ∷ metric iface "node_network_receive_drop_total" "Network receive drops."
          (parse_field fl fs 3)
      ∷ []

  transmit_metrics : Text → List Text → List (Metric F)
  unfolding parse_field
  transmit_metrics iface fs =
      metric iface "node_network_transmit_bytes_total" "Network bytes transmitted."
        (parse_field fl fs 8)
      ∷ metric iface "node_network_transmit_packets_total" "Network packets transmitted."
          (parse_field fl fs 9)
      ∷ metric iface "node_network_transmit_errs_total" "Network transmit errors."
          (parse_field fl fs 10)
      ∷ metric iface "node_network_transmit_drop_total" "Network transmit drops."
          (parse_field fl fs 11)
      ∷ []

  -- the interface, trimmed, and the fields behind its colon
  interface_metrics : Text → List Text → List (Metric F)
  unfolding receive_metrics transmit_metrics text_eq
  interface_metrics iface fs =
      if text_eq iface (codes "lo")
      then []
      else if ltb (length fs) 16
      then []
      else receive_metrics iface fs ++ transmit_metrics iface fs

  network_line : Text → List (Metric F)
  unfolding interface_metrics
  network_line line = elim (cut b':' line) [
    | none ↦ []
    | some (name, rest) ↦ interface_metrics (trim_space name) (fields rest)
  ]

  network_loop : List Text → List (Metric F)
  unfolding network_line
  network_loop [] = []
  network_loop (line ∷ ls) = network_line line ++ network_loop ls

  -- the first two lines are headers
  unfoldable pub collect_network : Option Text → List (Metric F)
  unfolding network_loop
  collect_network none = []
  collect_network (some dev) = network_loop (drop 2 (scan_lines dev))
