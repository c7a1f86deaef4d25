-- ===== src/Collectors/Windows/System.antt =====
-- internal/collectors/loadavg_windows.go and uptime_windows.go.
use limiz.Base.{ℕ, Text, Map, List, [], ◌∷◌, ◌++◌, Option, some, codes, if◌then◌else◌}
use limiz.Floats.{Floats}
use limiz.Collectors.Metric.{Metric, gauge}
use limiz.Collectors.Windows.{Value, Powershell, ps_json, get_float, plain_metric}

abbrev queue_command : Text
queue_command =
    codes "Get-CimInstance Win32_PerfFormattedData_PerfOS_System | "
    ++ codes "Select-Object ProcessorQueueLength | ConvertTo-Json"

abbrev boot_command : Text
boot_command =
    codes "Get-CimInstance Win32_OperatingSystem | "
    ++ (codes
          "Select-Object @{N='BootEpoch';E={[int][double]::Parse((Get-Date $_.LastBootUpTime -UFormat %s))}} | "
        ++ codes "ConvertTo-Json")

module _ (fl : Floats) where
  open fl use {F, of_nat, less}

  unfoldable pub queue_metrics : Option (List (Map (Value F))) → List (Metric F)
  queue_metrics (some (m ∷ ms)) =
      let queue_len = get_float fl m "ProcessorQueueLength" in
      plain_metric [] gauge "node_load1" "Processor queue length (Windows approximation of load1)."
        queue_len
      ∷ plain_metric [] gauge "node_load5"
          "Processor queue length (Windows approximation of load5)." queue_len
      ∷ plain_metric [] gauge "node_load15"
          "Processor queue length (Windows approximation of load15)." queue_len
      ∷ []
  queue_metrics _ = []

  unfoldable pub collect_queue : Powershell F → List (Metric F)
  collect_queue ps = queue_metrics (ps_json ps queue_command)

  unfoldable pub boot_metrics : Option (List (Map (Value F))) → List (Metric F)
  boot_metrics (some (m ∷ ms)) =
      let boot_epoch = get_float fl m "BootEpoch" in
      if less (of_nat 0) boot_epoch
      then plain_metric [] gauge "node_boot_time_seconds" "Node boot time in seconds since epoch."
          boot_epoch
        ∷ []
      else []
  boot_metrics _ = []

  unfoldable pub collect_boot : ℕ → Powershell F → List (Metric F)
  collect_boot now ps =
      boot_metrics (ps_json ps boot_command)
      ++ plain_metric [] gauge "node_time_seconds" "Current system time in seconds since epoch."
          (of_nat now)
        ∷ []
