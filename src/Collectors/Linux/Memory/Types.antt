-- ===== src/Collectors/Linux/Memory/Types.antt =====
-- internal/collectors/memory_linux.go: the types of the metrics.
use limiz.Base.{
  ◌≡◌, refl, Text, List, [], ◌∷◌, Bool, true, false, Option, none, some, codes, lookup, All,
  All-append,
}
use limiz.Strings.Affix.{has_prefix, has_suffix, trim_suffix}
use limiz.Strings.Fields.{fields}
use limiz.Strings.Lines.{scan_lines}
use limiz.Floats.{Floats}
use limiz.Collectors.Metric.{gauge}
use limiz.Collectors.Types.{IsTyped, type_of, OnSome, lookup-All}
use limiz.Collectors.Linux.Memory.{
  mem_fields, memory_value, memory_parts, memory_loop, collect_memory,
}

-- the name of a gauge
abbrev IsGauge : Text → Type 0
IsGauge name = gauge ≡ type_of name

mem_fields-IsGauge : All (λ p. IsGauge p.1) mem_fields
unfolding type_of has_suffix has_prefix
mem_fields-IsGauge = (
  refl,
  (
    refl,
    (
      refl,
      (
        refl,
        (
          refl,
          (
            refl,
            (
              refl,
              (
                refl,
                (
                  refl,
                  (
                    refl,
                    (
                      refl,
                      (refl, (refl, (refl, (refl, (refl, (refl, (refl, (refl, (refl, tt))))))))),
                    ),
                  ),
                ),
              ),
            ),
          ),
        ),
      ),
    ),
  ),
)

module _ (fl : Floats) where
  open fl use {F, parse_float}

  memory_value-IsTyped :
      (name key : Text) (v : F × Bool) (rest : List Text)
      → IsGauge name
      → All IsTyped (memory_value fl name key v rest)
  unfolding memory_value
  memory_value-IsTyped name key (v, true) rest h = (h, tt)
  memory_value-IsTyped name key (v, false) rest h = tt

  looked_up-IsTyped :
      (key b : Text) (rest : List Text) (name : Option Text)
      → OnSome IsGauge name
      → All IsTyped (elim name [ none ↦ [] | some n ↦ memory_value fl n key (parse_float b) rest ])
  looked_up-IsTyped key b rest none h = tt
  looked_up-IsTyped key b rest (some n) h = memory_value-IsTyped n key (parse_float b) rest h

  memory_parts-IsTyped : (fs : List Text) → All IsTyped (memory_parts fl fs)
  unfolding memory_parts
  memory_parts-IsTyped [] = tt
  memory_parts-IsTyped (a ∷ []) = tt
  memory_parts-IsTyped (a ∷ b ∷ rest) =
      let key = trim_suffix (codes ":") a in
      looked_up-IsTyped key b rest (lookup key mem_fields)
        (lookup-All IsGauge key mem_fields mem_fields-IsGauge)

  memory_loop-IsTyped : (ls : List Text) → All IsTyped (memory_loop fl ls)
  unfolding memory_loop
  memory_loop-IsTyped [] = tt
  memory_loop-IsTyped (line ∷ ls) =
      All-append IsTyped _ _ (memory_parts-IsTyped (fields line)) (memory_loop-IsTyped ls)

  pub collect_memory-IsTyped : (meminfo : Option Text) → All IsTyped (collect_memory fl meminfo)
  unfolding collect_memory
  collect_memory-IsTyped none = tt
  collect_memory-IsTyped (some meminfo) = memory_loop-IsTyped (scan_lines meminfo)
