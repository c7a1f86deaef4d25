-- ===== src/Collectors/Windows/Network.antt =====
-- internal/collectors/network_windows.go.
use limiz.Base.{
  Text, Map, List, [], ◌∷◌, ◌++◌, map, Bool, ◌&&◌, ◌||◌, ◌==◌, none, some, codes, if◌then◌else◌,
}
use limiz.Strings.Affix.{contains}
use limiz.Strings.Case.{to_lower}
use limiz.Floats.{Floats}
use limiz.Collectors.Metric.{Metric, gauge}
use limiz.Collectors.Windows.{Value, Powershell, ps_json, get_string, get_float, plain_metric}
use limiz.Collectors.Windows.Disk.{is_alnum}

abbrev command : Text
command =
    codes "Get-CimInstance Win32_PerfFormattedData_Tcpip_NetworkInterface | "
    ++ (codes "Select-Object Name, BytesReceivedPersec, BytesSentPersec, "
        ++ (codes "PacketsReceivedPersec, PacketsSentPersec, "
            ++ codes "PacketsReceivedErrors, PacketsOutboundErrors | ConvertTo-Json"))

unfoldable pub safe_name : Text → Text
safe_name = map (λ c. if is_alnum c || (c == b'_' || c == b'-') then c else b'_')

module _ (fl : Floats) where
  open fl use {F, of_nat, eq}

  unfoldable pub interface_metrics : Text → Map (Value F) → List (Metric F)
  interface_metrics device p =
      let labels = (codes "device", device) ∷ [] in
      plain_metric labels gauge "node_network_receive_bytes_total" "Network bytes received per sec."
        (get_float fl p "BytesReceivedPersec")
      ∷ plain_metric labels gauge "node_network_receive_packets_total"
          "Network packets received per sec." (get_float fl p "PacketsReceivedPersec")
      ∷ plain_metric labels gauge "node_network_receive_errs_total" "Network receive errors."
          (get_float fl p "PacketsReceivedErrors")
      ∷ plain_metric labels gauge "node_network_transmit_bytes_total" "Network bytes sent per sec."
          (get_float fl p "BytesSentPersec")
      ∷ plain_metric labels gauge "node_network_transmit_packets_total"
          "Network packets sent per sec." (get_float fl p "PacketsSentPersec")
      ∷ plain_metric labels gauge "node_network_transmit_errs_total" "Network transmit errors."
          (get_float fl p "PacketsOutboundErrors")
      ∷ []

  unfoldable pub is_passed_over : Map (Value F) → Bool
  unfolding to_lower
  is_passed_over p =
      contains (codes "loopback") (to_lower (get_string p "Name"))
      || (eq (get_float fl p "BytesReceivedPersec") (of_nat 0)
          && eq (get_float fl p "BytesSentPersec") (of_nat 0))

  unfoldable pub interface_rows : List (Map (Value F)) → List (Metric F)
  interface_rows [] = []
  interface_rows (p ∷ ps) =
      (if is_passed_over p then [] else interface_metrics (safe_name (get_string p "Name")) p)
      ++ interface_rows ps

  unfoldable pub collect_interfaces : Powershell F → List (Metric F)
  collect_interfaces ps = elim (ps_json ps command) [
    | none ↦ []
    | some perf_data ↦ interface_rows perf_data
  ]
