-- ===== src/Collectors/Linux/Cpu/Types.antt =====
-- internal/collectors/cpu_linux.go: the types of the metrics.
use limiz.Base.{
  ◌≡◌, refl, Text, String, List, [], ◌∷◌, ◌++◌, Bool, true, false, Option, none, some, codes, All,
  All-append, Bool-cases, inl, inr,
}
use limiz.Strings.Affix.{has_prefix, has_suffix}
use limiz.Strings.Fields.{fields}
use limiz.Strings.Lines.{scan_lines}
use limiz.Floats.{Floats}
use limiz.Collectors.Metric.{Metric, gauge, counter}
use limiz.Collectors.Types.{IsTyped, type_of, OnSome}
use limiz.Collectors.Linux.Cpu.{
  cpu_modes, mode_metric, mode_loop, cpu_name, cpu_fields, cpu_line, cpu_loop, count_metric,
  stat_value, second_value, stat_metric, both, stat_line, stat_loop, second_read, collect_cpu,
}

module _ (fl : Floats) where
  open fl use {F, parse_float}

  -- of the metrics, where there is no panic
  abbrev AreTyped : Option (List (Metric F)) → Type 0
  AreTyped = OnSome (All IsTyped)

  mode_metric-IsTyped : (cpu mode : Text) (v : F × Bool) → All IsTyped (mode_metric fl cpu mode v)
  unfolding mode_metric type_of has_suffix has_prefix
  mode_metric-IsTyped cpu mode (v, true) = (refl, tt)
  mode_metric-IsTyped cpu mode (v, false) = tt

  mode_loop-IsTyped : (cpu : Text) (modes fs : List Text) → All IsTyped (mode_loop fl cpu modes fs)
  unfolding mode_loop
  mode_loop-IsTyped cpu [] fs = tt
  mode_loop-IsTyped cpu (mode ∷ modes) [] = tt
  mode_loop-IsTyped cpu (mode ∷ modes) (f ∷ fs) =
      All-append IsTyped _ _ (mode_metric-IsTyped cpu mode (parse_float f))
        (mode_loop-IsTyped cpu modes fs)

  cpu_fields-IsTyped : (fs : List Text) → All IsTyped (cpu_fields fl fs)
  unfolding cpu_fields
  cpu_fields-IsTyped [] = tt
  cpu_fields-IsTyped (name ∷ []) = tt
  cpu_fields-IsTyped (name ∷ f ∷ fs) = mode_loop-IsTyped (cpu_name fl name) cpu_modes (f ∷ fs)

  cpu_line-IsTyped : (line : Text) → All IsTyped (cpu_line fl line)
  unfolding cpu_line
  cpu_line-IsTyped line = elim (Bool-cases (has_prefix (codes "cpu") line)) [
    | inl e ↦ rw (cpu_line, e) (cpu_fields-IsTyped (fields line))
    | inr e ↦ rw (cpu_line, e) tt
  ]

  cpu_loop-IsTyped : (ls : List Text) → All IsTyped (cpu_loop fl ls)
  unfolding cpu_loop
  cpu_loop-IsTyped [] = tt
  cpu_loop-IsTyped (line ∷ ls) =
      All-append IsTyped _ _ (cpu_line-IsTyped line) (cpu_loop-IsTyped ls)

  both-AreTyped :
      (a b : Option (List (Metric F))) → AreTyped a → AreTyped b → AreTyped (both fl a b)
  both-AreTyped none b ha hb = tt
  both-AreTyped (some ms) none ha hb = tt
  both-AreTyped (some ms) (some ns) ha hb = All-append IsTyped ms ns ha hb

  stat_value-IsTyped :
      (name help : String) (type : Text) (v : F × Bool)
      → type ≡ type_of (codes name)
      → All IsTyped (stat_value fl name help type v)
  unfolding stat_value
  stat_value-IsTyped name help type (v, true) h = (h, tt)
  stat_value-IsTyped name help type (v, false) h = tt

  second_value-AreTyped :
      (name help : String) (type : Text) (fs : List Text)
      → type ≡ type_of (codes name)
      → AreTyped (second_value fl name help type fs)
  unfolding second_value
  second_value-AreTyped name help type [] h = tt
  second_value-AreTyped name help type (a ∷ []) h = tt
  second_value-AreTyped name help type (a ∷ s ∷ fs) h =
      stat_value-IsTyped name help type (parse_float s) h

  stat_metric-AreTyped :
      (prefix name help : String) (type line : Text)
      → type ≡ type_of (codes name)
      → AreTyped (stat_metric fl prefix name help type line)
  unfolding stat_metric
  stat_metric-AreTyped prefix name help type line h =
      elim (Bool-cases (has_prefix (codes prefix) line)) [
        | inl e ↦ rw (stat_metric, e) (second_value-AreTyped name help type (fields line) h)
        | inr e ↦ rw (stat_metric, e) tt
      ]

  stat_line-AreTyped : (line : Text) → AreTyped (stat_line fl line)
  unfolding stat_line type_of has_suffix has_prefix
  stat_line-AreTyped line =
      both-AreTyped _ _
        (stat_metric-AreTyped "ctxt " "node_context_switches_total" "Total context switches."
          counter line refl)
        (both-AreTyped _ _
          (stat_metric-AreTyped "processes " "node_forks_total" "Total forks." counter line refl)
          (both-AreTyped _ _
            (stat_metric-AreTyped "procs_running " "node_procs_running"
              "Number of processes in runnable state." gauge line refl)
            (stat_metric-AreTyped "procs_blocked " "node_procs_blocked"
              "Number of processes blocked waiting for I/O." gauge line refl)))

  stat_loop-AreTyped : (ls : List Text) → AreTyped (stat_loop fl ls)
  unfolding stat_loop
  stat_loop-AreTyped [] = tt
  stat_loop-AreTyped (line ∷ ls) =
      both-AreTyped _ _ (stat_line-AreTyped line) (stat_loop-AreTyped ls)

  second_read-AreTyped : (stat : Option Text) → AreTyped (second_read fl stat)
  unfolding second_read
  second_read-AreTyped none = tt
  second_read-AreTyped (some stat) = stat_loop-AreTyped (scan_lines stat)

  pub collect_cpu-AreTyped :
      (stat second : Option Text) → OnSome (All IsTyped) (collect_cpu fl stat second)
  unfolding collect_cpu count_metric type_of has_suffix has_prefix
  collect_cpu-AreTyped none second = tt
  collect_cpu-AreTyped (some stat) second =
      let ms = cpu_loop fl (scan_lines stat) in
      both-AreTyped (some (ms ++ count_metric fl ms ∷ [])) (second_read fl second)
        (All-append IsTyped ms (count_metric fl ms ∷ []) (cpu_loop-IsTyped (scan_lines stat))
          (refl, tt))
        (second_read-AreTyped second)
