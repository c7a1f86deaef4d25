-- ===== src/Collectors/Windows/Cpu.antt =====
-- internal/collectors/cpu_windows.go.
use limiz.Base.{
  ℕ, suc, ◌%◌, Text, Map, String, List, [], ◌∷◌, ◌++◌, map, Option, none, some, codes,
  if◌then◌else◌, text_eq,
}
use limiz.Floats.{Floats}
use limiz.Collectors.Metric.{Metric, gauge, counter}
use limiz.Collectors.Windows.{Value, Powershell, ps_json, get_string, get_float, plain_metric}

abbrev perf_command : Text
perf_command =
    codes "Get-CimInstance Win32_PerfFormattedData_PerfOS_Processor | "
    ++ (codes "Select-Object Name, PercentUserTime, PercentPrivilegedTime, PercentIdleTime, "
        ++ codes "PercentInterruptTime, PercentDPCTime | ConvertTo-Json")

abbrev count_command : Text
count_command =
    codes "Get-CimInstance Win32_Processor | "
    ++ codes "Select-Object NumberOfLogicalProcessors | ConvertTo-Json"

abbrev system_command : Text
system_command =
    codes "Get-CimInstance Win32_PerfFormattedData_PerfOS_System | "
    ++ codes "Select-Object ContextSwitchesPersec, Processes | ConvertTo-Json"

unfoldable pub cpu_name : Text → Text
cpu_name name = if text_eq name (codes "_Total") then codes "total" else codes "cpu" ++ name

module _ (fl : Floats) where
  open fl use {F, of_nat, mul, div, add, less}

  -- a percentage of what the source calls the uptime, which is the time of the day
  share : ℕ → Map (Value F) → String → F
  share now p key = mul (div (get_float fl p key) (of_nat 100)) (of_nat (now % 86400))

  unfoldable pub modes : ℕ → Map (Value F) → Map F
  unfolding share
  modes now p =
      (codes "user", share now p "PercentUserTime")
      ∷ (codes "system", share now p "PercentPrivilegedTime")
      ∷ (codes "idle", share now p "PercentIdleTime")
      ∷ (codes "irq", share now p "PercentInterruptTime")
      ∷ (codes "softirq", share now p "PercentDPCTime")
      ∷ []

  abbrev pub mode_metric : Text → Text × F → Metric F
  mode_metric cpu (mode, val) =
      plain_metric ((codes "cpu", cpu) ∷ (codes "mode", mode) ∷ []) counter "node_cpu_seconds_total"
        "Seconds the CPUs spent in each mode." val

  -- `visit` is the order in which `range` goes through the modes, `clock` the reading for each row
  unfoldable pub cpu_rows : (Map F → Map F) → (ℕ → ℕ) → List (Map (Value F)) → List (Metric F)
  unfolding modes
  cpu_rows visit clock [] = []
  cpu_rows visit clock (p ∷ ps) =
      map (mode_metric (cpu_name (get_string p "Name"))) (visit (modes (clock 0) p))
      ++ cpu_rows visit (λ n. clock (suc n)) ps

  total : F → List (Map (Value F)) → F
  total n [] = n
  total n (ci ∷ cs) = total (add n (get_float fl ci "NumberOfLogicalProcessors")) cs

  unfoldable pub count_metrics : Option (List (Map (Value F))) → List (Metric F)
  unfolding total
  count_metrics none = []
  count_metrics (some cpu_info) =
      let n = total (of_nat 0) cpu_info in
      if less (of_nat 0) n
      then plain_metric [] gauge "node_cpu_count" "Number of logical processors." n ∷ []
      else []

  unfoldable pub system_metrics : Option (List (Map (Value F))) → List (Metric F)
  system_metrics (some (m ∷ ms)) =
      plain_metric [] gauge "node_context_switches_per_sec" "Context switches per second."
        (get_float fl m "ContextSwitchesPersec")
      ∷ plain_metric [] gauge "node_procs_running" "Total number of processes."
          (get_float fl m "Processes")
      ∷ []
  system_metrics _ = []

  unfoldable pub collect_processors : (Map F → Map F) → (ℕ → ℕ) → Powershell F → List (Metric F)
  collect_processors visit clock ps =
      elim (ps_json ps perf_command) [ none ↦ [] | some perf_data ↦ cpu_rows visit clock perf_data ]
      ++ (count_metrics (ps_json ps count_command) ++ system_metrics (ps_json ps system_command))
