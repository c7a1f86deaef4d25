-- ===== src/Collectors/Windows/Memory.antt =====
-- internal/collectors/memory_windows.go.
use limiz.Base.{Text, Map, List, [], ◌∷◌, ◌++◌, Option, some, codes}
use limiz.Floats.{Floats}
use limiz.Collectors.Metric.{Metric, gauge}
use limiz.Collectors.Windows.{Value, Powershell, ps_json, get_float, plain_metric}

abbrev os_command : Text
os_command =
    codes "Get-CimInstance Win32_OperatingSystem | "
    ++ (codes "Select-Object TotalVisibleMemorySize, FreePhysicalMemory, "
        ++ codes "TotalVirtualMemorySize, FreeVirtualMemory | ConvertTo-Json")

abbrev memory_command : Text
memory_command =
    codes "Get-CimInstance Win32_PerfFormattedData_PerfOS_Memory | "
    ++ (codes "Select-Object CacheBytes, CommittedBytes, PoolNonpagedBytes, PoolPagedBytes, "
        ++ codes "AvailableBytes | ConvertTo-Json")

module _ (fl : Floats) where
  open fl use {F, of_nat, mul, sub}

  unfoldable pub os_metrics : Map (Value F) → List (Metric F)
  os_metrics o =
      let total_phys = mul (get_float fl o "TotalVisibleMemorySize") (of_nat 1024) in
      let free_phys = mul (get_float fl o "FreePhysicalMemory") (of_nat 1024) in
      let total_virt = mul (get_float fl o "TotalVirtualMemorySize") (of_nat 1024) in
      let free_virt = mul (get_float fl o "FreeVirtualMemory") (of_nat 1024) in
      plain_metric [] gauge "node_memory_MemTotal_bytes" "Total physical memory." total_phys
      ∷ plain_metric [] gauge "node_memory_MemFree_bytes" "Free physical memory." free_phys
      ∷ plain_metric [] gauge "node_memory_MemAvailable_bytes" "Available physical memory."
          free_phys
      ∷ plain_metric [] gauge "node_memory_SwapTotal_bytes" "Total swap (page file)."
          (sub total_virt total_phys)
      ∷ plain_metric [] gauge "node_memory_SwapFree_bytes" "Free swap (page file)."
          (sub free_virt free_phys)
      ∷ []

  unfoldable pub committed_metrics : Option (List (Map (Value F))) → List (Metric F)
  committed_metrics (some (m ∷ ms)) =
      plain_metric [] gauge "node_memory_Cached_bytes" "Cache memory bytes."
        (get_float fl m "CacheBytes")
      ∷ plain_metric [] gauge "node_memory_Committed_bytes" "Committed memory bytes."
          (get_float fl m "CommittedBytes")
      ∷ plain_metric [] gauge "node_memory_PoolNonpaged_bytes" "Non-paged pool bytes."
          (get_float fl m "PoolNonpagedBytes")
      ∷ plain_metric [] gauge "node_memory_PoolPaged_bytes" "Paged pool bytes."
          (get_float fl m "PoolPagedBytes")
      ∷ []
  committed_metrics _ = []

  unfoldable pub memory_metrics : Powershell F → Option (List (Map (Value F))) → List (Metric F)
  memory_metrics ps (some (o ∷ os)) = os_metrics o ++ committed_metrics (ps_json ps memory_command)
  memory_metrics ps _ = []

  unfoldable pub collect_windows_memory : Powershell F → List (Metric F)
  collect_windows_memory ps = memory_metrics ps (ps_json ps os_command)
