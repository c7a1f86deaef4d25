-- ===== src/Collectors/Linux/Memory/Meminfo.antt =====
-- internal/collectors/memory_linux.go: the collector on the text that the kernel writes to /proc/meminfo.
use limiz.Base.{
  ℕ, Text, List, [], ◌∷◌, ◌++◌, Bool, true, false, none, some, codes, map, if◌then◌else◌, text_eq,
  lookup, All, All-append, ◌≡◌, ◌≢◌, ◌<◌, refl, ap, ◌∙◌, arith, append-nil, ◌==◌, ne→==, All-mono,
  Option-cases, inl, inr,
}
use limiz.Strings.Affix.{trim_suffix-append}
use limiz.Strings.Trim.{is_space, EndsOutside-All}
use limiz.Strings.Fields.{fields, fields-cons, fields-one, fields-two, fields-blank, NoSpace}
use limiz.Strings.Lines.{unlines, IsScanned, scan_lines-unlines, byte_length, max_scan_token_size}
use limiz.Floats.{Floats}
use limiz.Collectors.Metric.{Metric}
use limiz.Collectors.Linux.Memory.{
  mem_fields, memory_metric, memory_value, memory_parts, memory_loop, collect_memory,
}

-- one entry: `<key>:<blanks><number>`, and ` kB` where the number is in kilobytes
pub record Entry : Type 0 where
  pub key : Text
  pub blanks : Text
  pub number : Text
  pub in_kb : Bool

unfoldable pub entry_line : Entry → Text
entry_line e =
    (e.key ++ codes ":") ++ b' ' ∷ (e.blanks ++ (e.number ++ (if e.in_kb then codes " kB" else [])))

pub record IsEntry (e : Entry) : Type 0 where
  pub key_solid : NoSpace e.key
  pub blank : All (λ c. c ≡ b' ') e.blanks
  pub number_nonempty : e.number ≢ []
  pub number_solid : NoSpace e.number
  pub fits : byte_length (entry_line e) < max_scan_token_size

-- the fields of the number with its unit
fields-number :
    (number : Text) (in_kb : Bool)
    → number ≢ []
    → NoSpace number
    → fields (number ++ (if in_kb then codes " kB" else []))
      ≡ number ∷ (if in_kb then codes "kB" ∷ [] else [])
fields-number [] in_kb n h = absurd (n refl)
fields-number (c ∷ w) true n h =
    fields-two (c ∷ w) (codes "kB") n (cc) h (unfold is_space in ground arith)
fields-number (c ∷ w) false n h = rw append-nil (fields-one c w h)

key_colon : (k : Text) → NoSpace k → NoSpace (k ++ codes ":")
key_colon k h = All-append _ k (codes ":") h (unfold is_space in ground arith)

fields-key :
    (k rest : Text)
    → NoSpace k
    → fields ((k ++ codes ":") ++ b' ' ∷ rest) ≡ (k ++ codes ":") ∷ fields rest
fields-key [] rest h =
    fields-cons b':' [] b' ' rest (unfold is_space in ground arith) (unfold is_space in refl)
fields-key (c ∷ k) rest h =
    fields-cons c (k ++ codes ":") b' ' rest (key_colon (c ∷ k) h) (unfold is_space in refl)

space_blank : is_space b' ' ≡ true
unfolding is_space
space_blank = refl

fields-entry_line :
    (e : Entry)
    → IsEntry e
    → fields (entry_line e)
      ≡ (e.key ++ codes ":") ∷ e.number ∷ (if e.in_kb then codes "kB" ∷ [] else [])
unfolding entry_line
fields-entry_line e h =
    fields-key e.key _ h.key_solid
    ∙ ap (λ t. (e.key ++ codes ":") ∷ t)
        (fields-blank e.blanks _
            (All-mono _ _ e.blanks (λ c q. ap is_space q ∙ space_blank) h.blank)
          ∙ fields-number e.number e.in_kb h.number_nonempty h.number_solid)

-- no line break and no carriage return
abbrev IsCalm : ℕ → Type 0
IsCalm c = (c ≢ 10) × ((c == 13) ≡ false)

solid-IsCalm : (c : ℕ) → is_space c ≡ false → IsCalm c
unfolding is_space
solid-IsCalm c h = (λ e. cc (h, ap is_space e), ne→== c 13 (λ e. cc (h, ap is_space e)))

entry_line-IsCalm : (e : Entry) → IsEntry e → All IsCalm (entry_line e)
unfolding entry_line
entry_line-IsCalm e h =
    All-append IsCalm (e.key ++ codes ":") _
      (All-append IsCalm e.key (codes ":") (All-mono _ _ e.key solid-IsCalm h.key_solid)
        ((omega arith, refl), tt))
      (
        (omega arith, refl),
        All-append IsCalm e.blanks _
            (All-mono _ _ e.blanks (λ c q. (omega arith, ground (arith, q))) h.blank)
            (All-append IsCalm e.number _ (All-mono _ _ e.number solid-IsCalm h.number_solid)
              (unit e.in_kb)),
      )
  where
    unit : (kb : Bool) → All IsCalm (if kb then codes " kB" else [])
    unit true = ((omega arith, refl), ((omega arith, refl), ((omega arith, refl), tt)))
    unit false = tt

entry_line-IsScanned : (e : Entry) → IsEntry e → IsScanned (entry_line e)
entry_line-IsScanned e h =
    let calm = entry_line-IsCalm e h in
    (
      All-mono IsCalm _ (entry_line e) (λ c q. q.0) calm,
      EndsOutside-All (λ c. c == 13) (entry_line e)
          (All-mono IsCalm _ (entry_line e) (λ c q. q.1) calm),
      h.fits,
    )

module _ (fl : Floats) where
  open fl use {F, parse_float, of_nat, mul}

  -- the metric of an entry that is wanted and has a number
  unfoldable pub entry_metrics : Entry → List (Metric F)
  entry_metrics e = elim (lookup e.key mem_fields) [
    | none ↦ []
    | some name ↦
        if (parse_float e.number).1
        then memory_metric fl name e.key (
            if e.in_kb
            then mul (parse_float e.number).0 (of_nat 1024)
            else (parse_float e.number).0)
          ∷ []
        else []
  ]

  memory_value-if :
      (name key : Text) (v : F × Bool) (in_kb : Bool)
      → memory_value fl name key v (if in_kb then codes "kB" ∷ [] else []) ≡ (
          if v.1
          then memory_metric fl name key (if in_kb then mul v.0 (of_nat 1024) else v.0) ∷ []
          else [])
  unfolding memory_value text_eq
  memory_value-if name key (v, false) in_kb = refl
  memory_value-if name key (v, true) true = refl
  memory_value-if name key (v, true) false = refl

  memory_parts-entry :
      (e : Entry)
      → memory_parts fl
          ((e.key ++ codes ":") ∷ e.number ∷ (if e.in_kb then codes "kB" ∷ [] else []))
        ≡ entry_metrics e
  unfolding memory_parts entry_metrics
  memory_parts-entry e = elim (Option-cases (lookup e.key mem_fields)) [
    | inl q ↦
        rw (trim_suffix-append e.key (codes ":"), memory_parts)
          (rw (q, memory_parts, entry_metrics) refl)
    | inr (name, q) ↦
        rw (trim_suffix-append e.key (codes ":"), memory_parts)
          (rw (q, memory_parts, entry_metrics, trim_suffix-append e.key (codes ":"))
            (memory_value-if name e.key (parse_float e.number) e.in_kb))
  ]

  unfoldable pub all_metrics : List Entry → List (Metric F)
  unfolding entry_metrics
  all_metrics [] = []
  all_metrics (e ∷ es) = entry_metrics e ++ all_metrics es

  memory_loop-entries :
      (es : List Entry) → All IsEntry es → memory_loop fl (map entry_line es) ≡ all_metrics es
  unfolding memory_loop all_metrics
  memory_loop-entries [] h = refl
  memory_loop-entries (e ∷ es) h =
      rw (fields-entry_line e h.0, memory_loop-entries es h.1)
        (ap (λ t. t ++ all_metrics es) (memory_parts-entry e))

  lines-IsScanned : (es : List Entry) → All IsEntry es → All IsScanned (map entry_line es)
  lines-IsScanned [] h = tt
  lines-IsScanned (e ∷ es) h = (entry_line-IsScanned e h.0, lines-IsScanned es h.1)

  -- On the lines `<key>: <number> kB` and `<key>: <number>` of the kernel, Collect returns one metric for
  -- each entry whose key is wanted and whose number can be read, in their order: its value is the
  -- number, times 1024 where the entry is in kilobytes.
  pub collect_memory-all_metrics :
      (es : List Entry)
      → All IsEntry es
      → collect_memory fl (some (unlines (map entry_line es))) ≡ all_metrics es
  unfolding collect_memory
  collect_memory-all_metrics es h =
      ap (memory_loop fl) (scan_lines-unlines (map entry_line es) (lines-IsScanned es h))
      ∙ memory_loop-entries es h
