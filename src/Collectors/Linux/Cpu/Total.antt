-- ===== src/Collectors/Linux/Cpu/Total.antt =====
-- internal/collectors/cpu_linux.go: when the collector panics, and how it counts the CPUs.
use limiz.Base.{
  Text, String, List, [], ◌∷◌, ◌++◌, Bool, true, false, not, ◌&&◌, ◌||◌, Option, none, some, codes,
  if◌then◌else◌, text_eq, lookup, count_of, count_of-append, append-nil, length, ltb, All, ◌≡◌,
  refl, ap, ◌∙◌, arith, Bool-cases, inl, inr,
}
use limiz.Strings.Affix.{has_prefix, has_prefix_sound}
use limiz.Strings.Fields.{fields, fields-begun}
use limiz.Strings.Trim.{is_space}
use limiz.Strings.Lines.{scan_lines}
use limiz.Floats.{Floats}
use limiz.Collectors.Metric.{Metric}
use limiz.Collectors.Linux.Cpu.{
  cpu_modes, mode_metric, mode_loop, cpu_name, cpu_fields, cpu_line, cpu_loop, is_user_of_one,
  count_metric, second_value, stat_metric, both, stat_line, stat_loop, second_read, collect_cpu,
}

abbrev pub any {ℓ} : {A : Type ℓ} → (A → Bool) → List A → Bool
any p [] = false
any p (x ∷ xs) = p x || any p xs

abbrev pub is_none {ℓ} : {A : Type ℓ} → Option A → Bool
is_none none = true
is_none (some a) = false

-- a line of that name without a second field
abbrev is_short : String → Text → Bool
is_short prefix line = has_prefix (codes prefix) line && ltb (length (fields line)) 2

-- a line at which the second loop indexes out of range
unfoldable pub short_line : Text → Bool
short_line line =
    is_short "ctxt " line
    || (is_short "processes " line
        || (is_short "procs_running " line || is_short "procs_blocked " line))

module _ (fl : Floats) where
  open fl use {F, of_nat, parse_float}

  is_none-second_value :
      (name help : String) (type : Text) (fs : List Text)
      → is_none (second_value fl name help type fs) ≡ ltb (length fs) 2
  unfolding second_value
  is_none-second_value name help type [] = refl
  is_none-second_value name help type (a ∷ []) = refl
  is_none-second_value name help type (a ∷ b ∷ fs) = ground arith

  is_none-stat_metric :
      (prefix name help : String) (type line : Text)
      → is_none (stat_metric fl prefix name help type line) ≡ is_short prefix line
  unfolding stat_metric
  is_none-stat_metric prefix name help type line =
      elim (Bool-cases (has_prefix (codes prefix) line)) [
        | inl e ↦ rw e (is_none-second_value name help type (fields line))
        | inr e ↦ rw e refl
      ]

  is_none-both : (a b : Option (List (Metric F))) → is_none (both fl a b) ≡ (is_none a || is_none b)
  is_none-both none b = refl
  is_none-both (some ms) none = refl
  is_none-both (some ms) (some ns) = refl

  is_none-stat_line : (line : Text) → is_none (stat_line fl line) ≡ short_line line
  unfolding stat_line short_line
  is_none-stat_line line =
      rw (is_none-both, is_none-both, is_none-both)
        (rw (is_none-stat_metric, is_none-stat_metric, is_none-stat_metric, is_none-stat_metric)
          refl)

  is_none-stat_loop : (ls : List Text) → is_none (stat_loop fl ls) ≡ any short_line ls
  unfolding stat_loop
  is_none-stat_loop [] = refl
  is_none-stat_loop (line ∷ ls) = rw (is_none-both, is_none-stat_line, is_none-stat_loop ls) refl

  -- Collect panics exactly when the file can be opened both times and a line of the second reading that
  -- begins with `ctxt `, `processes `, `procs_running ` or `procs_blocked ` has no second field.
  pub is_none-collect_cpu :
      (first second : Text)
      → is_none (collect_cpu fl (some first) (some second)) ≡ any short_line (scan_lines second)
  unfolding collect_cpu second_read
  is_none-collect_cpu first second =
      is_none-both (some _) (stat_loop fl (scan_lines second))
      ∙ is_none-stat_loop (scan_lines second)

  -- a line that names one CPU, and whose time in user mode is a number
  abbrev user_of_one : List Text → Bool
  user_of_one (name ∷ f ∷ fs) = not (text_eq name (codes "cpu")) && (parse_float f).1
  user_of_one _ = false

  unfoldable pub names_cpu : Text → Bool
  names_cpu line = has_prefix (codes "cpu") line && user_of_one (fields line)

  count-mode_metric :
      (cpu mode : Text) (v : F × Bool)
      → count_of (is_user_of_one fl) (mode_metric fl cpu mode v) ≡ (
          if v.1 && (text_eq mode (codes "user") && not (text_eq cpu (codes "total")))
          then 1
          else 0)
  unfolding mode_metric count_of is_user_of_one lookup
  count-mode_metric cpu mode (v, true) = ground arith
  count-mode_metric cpu mode (v, false) = refl

  count-other_modes :
      (cpu : Text) (modes fs : List Text)
      → All (λ mode. text_eq mode (codes "user") ≡ false) modes
      → count_of (is_user_of_one fl) (mode_loop fl cpu modes fs) ≡ 0
  unfolding mode_loop count_of
  count-other_modes cpu [] fs h = refl
  count-other_modes cpu (mode ∷ modes) [] h = refl
  count-other_modes cpu (mode ∷ modes) (f ∷ fs) h = rw count_of-append (
      rw (count-mode_metric cpu mode (parse_float f), h.0, count-other_modes cpu modes fs h.1)
        (ground arith))

  abbrev later_modes : List Text
  later_modes =
      codes "nice"
      ∷ codes "system"
      ∷ codes "idle"
      ∷ codes "iowait"
      ∷ codes "irq"
      ∷ codes "softirq"
      ∷ codes "steal"
      ∷ []

  mode_loop-cons :
      (cpu mode f : Text) (modes fs : List Text)
      → mode_loop fl cpu (mode ∷ modes) (f ∷ fs)
        ≡ mode_metric fl cpu mode (parse_float f) ++ mode_loop fl cpu modes fs
  unfolding mode_loop
  mode_loop-cons cpu mode f modes fs = refl

  count-all_modes :
      (cpu f : Text) (fs : List Text)
      → count_of (is_user_of_one fl) (mode_loop fl cpu cpu_modes (f ∷ fs))
        ≡ (if (parse_float f).1 && not (text_eq cpu (codes "total")) then 1 else 0)
  unfolding text_eq
  count-all_modes cpu f fs =
      rw (mode_loop-cons cpu (codes "user") f later_modes fs, count_of-append)
        (rw
          (
            count-mode_metric cpu (codes "user") (parse_float f),
            count-other_modes cpu later_modes fs
                (refl, (refl, (refl, (refl, (refl, (refl, (refl, tt))))))),
          )
          (ground arith))

  count-cpu_fields :
      (w : Text) (fs : List Text)
      → count_of (is_user_of_one fl) (cpu_fields fl ((codes "cpu" ++ w) ∷ fs))
        ≡ (if user_of_one ((codes "cpu" ++ w) ∷ fs) then 1 else 0)
  unfolding cpu_fields cpu_name text_eq count_of
  count-cpu_fields w [] = refl
  count-cpu_fields [] (f ∷ fs) = count-all_modes (codes "total") f fs ∙ ground arith
  count-cpu_fields (c ∷ w) (f ∷ fs) = count-all_modes (codes "cpu" ++ c ∷ w) f fs ∙ ground arith

  count-cpu_line :
      (line : Text)
      → count_of (is_user_of_one fl) (cpu_line fl line) ≡ (if names_cpu line then 1 else 0)
  unfolding cpu_line names_cpu
  count-cpu_line line = elim (Bool-cases (has_prefix (codes "cpu") line)) [
    | inr e ↦ rw e (unfold count_of in refl)
    | inl e ↦
        let (t, p) = has_prefix_sound (codes "cpu") line e in
        let (w, ws, q) = fields-begun b'c' (codes "pu") t (unfold is_space in ground arith) in
        rw (e, ap fields p ∙ q) (count-cpu_fields w ws)
  ]

  count-cpu_loop :
      (ls : List Text) → count_of (is_user_of_one fl) (cpu_loop fl ls) ≡ count_of names_cpu ls
  unfolding cpu_loop count_of
  count-cpu_loop [] = refl
  count-cpu_loop (line ∷ ls) =
      rw count_of-append (rw (count-cpu_line line, count-cpu_loop ls) (ground arith))

  -- Where the file can be opened the first time and not the second, Collect returns the times of the modes
  -- and one more metric, whose value is the number of the lines that name one CPU, `cpu<n>`, and have a
  -- number as the time in user mode.
  pub collect_cpu-count :
      (stat : Text)
      → (ms : List (Metric F)) × (m : Metric F) × (collect_cpu fl (some stat) none
          ≡ some (ms ++ m ∷ []))
        × (m.name ≡ codes "node_cpu_count")
        × (m.value ≡ of_nat (count_of names_cpu (scan_lines stat)))
  unfolding collect_cpu count_metric second_read
  collect_cpu-count stat = (
    cpu_loop fl (scan_lines stat),
    count_metric fl (cpu_loop fl (scan_lines stat)),
    ap some (append-nil _),
    refl,
    ap of_nat (count-cpu_loop (scan_lines stat)),
  )
