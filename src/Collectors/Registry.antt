-- ===== src/Collectors/Registry.antt =====
-- internal/collectors/registry.go: `CollectRaw` and `Collect`, the Prometheus exposition format.
use limiz.Base.{
  Text, Map, List, [], ◌∷◌, ◌++◌, Bool, true, false, none, some, codes, if◌then◌else◌, lookup,
  insert, map,
}
use limiz.Strings.Split.{join}
use limiz.Floats.{Floats}
use limiz.Collectors.Metric.{Metric, Collector, Registry}

-- the loop of `CollectRaw`
unfoldable pub raw_loop :
    {W F : Type 0} → List (Collector W F) → W → List (Metric F) → W × List (Metric F)
raw_loop [] w all = (w, all)
raw_loop (c ∷ cs) w all = let (w', metrics) = c.collect w in raw_loop cs w' (all ++ metrics)

unfoldable pub collect_raw : {W F : Type 0} → Registry W F → W → W × List (Metric F)
unfolding raw_loop
collect_raw r w = raw_loop r.collectors w []

-- `seen[name]`
abbrev pub is_seen : Text → Map Bool → Bool
is_seen k seen = elim (lookup k seen) [ none ↦ false | some b ↦ b ]

-- `k="v"`
unfoldable pub label_part : Text × Text → Text
label_part (k, v) = k ++ b'=' ∷ b'"' ∷ (v ++ b'"' ∷ [])

module _ (fl : Floats) where
  open fl use {F, format_g}

  unfoldable pub help_line : Metric F → Text
  help_line m = codes "# HELP " ++ (m.name ++ b' ' ∷ m.help)

  unfoldable pub type_line : Metric F → Text
  type_line m = codes "# TYPE " ++ (m.name ++ b' ' ∷ m.type)

  unfoldable pub label_text : Map Text → Text
  unfolding label_part join
  label_text labels = join b',' (map label_part labels)

  -- `len(m.Labels) > 0` picks the form with braces
  unfoldable pub sample_of : Metric F → Map Text → Text
  unfolding label_text
  sample_of m [] = m.name ++ b' ' ∷ format_g m.value
  sample_of m (l ∷ ls) = m.name ++ b'{' ∷ (label_text (l ∷ ls) ++ b'}' ∷ b' ' ∷ format_g m.value)

  unfoldable pub sample_line : Metric F → Text
  unfolding sample_of
  sample_line m = sample_of m m.labels

  -- the inner loop: the HELP and TYPE lines stand before the first sample of each name
  unfoldable pub expose : List (Metric F) → Map Bool → Text
  unfolding help_line type_line sample_line
  expose [] seen = []
  expose (m ∷ ms) seen =
      (if is_seen m.name seen then [] else help_line m ++ b'\n' ∷ (type_line m ++ b'\n' ∷ []))
      ++ (sample_line m ++ b'\n' ∷ expose ms (insert m.name true seen))

  -- a collector without metrics writes nothing
  unfoldable pub section_text : List (Metric F) → Text
  unfolding expose
  section_text [] = []
  section_text (m ∷ ms) = expose (m ∷ ms) [] ++ b'\n' ∷ []

  unfoldable pub collect_loop : {W : Type 0} → List (Collector W F) → W → W × Text
  unfolding section_text
  collect_loop [] w = (w, [])
  collect_loop (c ∷ cs) w =
      let (w', metrics) = c.collect w in
      let (w'', rest) = collect_loop cs w' in (w'', section_text metrics ++ rest)

  unfoldable pub collect : {W : Type 0} → Registry W F → W → W × Text
  unfolding collect_loop
  collect r w = collect_loop r.collectors w
