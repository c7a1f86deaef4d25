-- ===== src/Collectors/Linux/Cpu.antt =====
-- internal/collectors/cpu_linux.go.
pub mod Types
pub mod Total
use limiz.Base.{
  ℕ, suc, Text, String, List, [], ◌∷◌, ◌++◌, map, Bool, true, false, not, ◌&&◌, Option, none, some,
  codes, if◌then◌else◌, text_eq, lookup_text, get_elem?, count_of,
}
use limiz.Strings.Affix.{has_prefix}
use limiz.Strings.Fields.{fields}
use limiz.Strings.Lines.{scan_lines}
use limiz.Floats.{Floats}
use limiz.Collectors.Metric.{Metric, gauge, counter}

abbrev cpu_modes : List Text
cpu_modes =
    codes "user"
    ∷ codes "nice"
    ∷ codes "system"
    ∷ codes "idle"
    ∷ codes "iowait"
    ∷ codes "irq"
    ∷ codes "softirq"
    ∷ codes "steal"
    ∷ []

module _ (fl : Floats) where
  open fl use {F, parse_float, of_nat, div}

  abbrev cpu_metric : Text → Text → F → Metric F
  cpu_metric cpu mode v = record {
    name = codes "node_cpu_seconds_total";
    help = codes "Seconds the CPUs spent in each mode.";
    type = counter;
    labels = (codes "cpu", cpu) ∷ (codes "mode", mode) ∷ [];
    value = div v (of_nat 100);
  }

  -- one round of the loop over the modes; a field that is no number is skipped
  mode_metric : Text → Text → F × Bool → List (Metric F)
  mode_metric cpu mode (v, true) = cpu_metric cpu mode v ∷ []
  mode_metric cpu mode (v, false) = []

  -- the loop over the modes, beside the fields behind the first; it ends with the shorter of them
  mode_loop : Text → List Text → List Text → List (Metric F)
  unfolding mode_metric
  mode_loop cpu [] fs = []
  mode_loop cpu (mode ∷ modes) [] = []
  mode_loop cpu (mode ∷ modes) (f ∷ fs) =
      mode_metric cpu mode (parse_float f) ++ mode_loop cpu modes fs

  -- the name of the line of all CPUs
  cpu_name : Text → Text
  unfolding text_eq
  cpu_name name = if text_eq name (codes "cpu") then codes "total" else name

  -- the fields of a line that begins with `cpu`; at least two are needed
  cpu_fields : List Text → List (Metric F)
  unfolding mode_loop cpu_name
  cpu_fields [] = []
  cpu_fields (name ∷ []) = []
  cpu_fields (name ∷ f ∷ fs) = mode_loop (cpu_name name) cpu_modes (f ∷ fs)

  cpu_line : Text → List (Metric F)
  unfolding cpu_fields
  cpu_line line = if has_prefix (codes "cpu") line then cpu_fields (fields line) else []

  cpu_loop : List Text → List (Metric F)
  unfolding cpu_line
  cpu_loop [] = []
  cpu_loop (line ∷ ls) = cpu_line line ++ cpu_loop ls

  is_user_of_one : Metric F → Bool
  unfolding lookup_text text_eq
  is_user_of_one m =
      text_eq (lookup_text (codes "mode") m.labels) (codes "user")
      && not (text_eq (lookup_text (codes "cpu") m.labels) (codes "total"))

  count_metric : List (Metric F) → Metric F
  unfolding count_of is_user_of_one
  count_metric ms = record {
    name = codes "node_cpu_count";
    help = codes "Number of CPUs.";
    type = gauge;
    labels = [];
    value = of_nat (count_of is_user_of_one ms);
  }

  abbrev plain_metric : String → String → Text → F → Metric F
  plain_metric name help type v = record {
    name = codes name;
    help = codes help;
    type = type;
    labels = [];
    value = v;
  }

  stat_value : String → String → Text → F × Bool → List (Metric F)
  stat_value name help type (v, true) = plain_metric name help type v ∷ []
  stat_value name help type (v, false) = []

  -- `fields[1]` panics where there is none: the result is none
  second_value : String → String → Text → List Text → Option (List (Metric F))
  unfolding stat_value
  second_value name help type (a ∷ s ∷ fs) = some (stat_value name help type (parse_float s))
  second_value name help type _ = none

  stat_metric : String → String → String → Text → Text → Option (List (Metric F))
  unfolding second_value
  stat_metric prefix name help type line =
      if has_prefix (codes prefix) line then second_value name help type (fields line) else some []

  -- what two reads give, one after the other
  abbrev both : Option (List (Metric F)) → Option (List (Metric F)) → Option (List (Metric F))
  both none n = none
  both (some ms) none = none
  both (some ms) (some ns) = some (ms ++ ns)

  -- the body of the second loop
  stat_line : Text → Option (List (Metric F))
  unfolding stat_metric
  stat_line line =
      both
        (stat_metric "ctxt " "node_context_switches_total" "Total context switches." counter line)
        (both (stat_metric "processes " "node_forks_total" "Total forks." counter line) (
          both
            (stat_metric "procs_running " "node_procs_running"
              "Number of processes in runnable state." gauge line)
            (stat_metric "procs_blocked " "node_procs_blocked"
              "Number of processes blocked waiting for I/O." gauge line)))

  stat_loop : List Text → Option (List (Metric F))
  unfolding stat_line
  stat_loop [] = some []
  stat_loop (line ∷ ls) = both (stat_line line) (stat_loop ls)

  second_read : Option Text → Option (List (Metric F))
  unfolding stat_loop
  second_read none = some []
  second_read (some stat) = stat_loop (scan_lines stat)

  -- /proc/stat is opened twice: its text each time. None is a panic.
  unfoldable pub collect_cpu : Option Text → Option Text → Option (List (Metric F))
  unfolding cpu_loop count_metric second_read
  collect_cpu none second = some []
  collect_cpu (some stat) second =
      let ms = cpu_loop (scan_lines stat) in
      both (some (ms ++ count_metric ms ∷ [])) (second_read second)
