-- ===== src/Collectors/Parser.antt =====
-- internal/collectors/plugin_parser.go: the parser of a plugin's output.
pub mod Labels
pub mod Reading
pub mod Samples
use limiz.Base.{
  ℕ, Text, Map, List, [], ◌∷◌, ◌++◌, Bool, true, false, not, none, some, Option, codes,
  if◌then◌else◌, ◌==◌, lookup_text, insert, drop,
}
use mathlib.Core.List.{foldl}
use limiz.Strings.Affix.{has_prefix, cut}
use limiz.Strings.Trim.{trim_space, trim}
use limiz.Strings.Fields.{fields}
use limiz.Strings.Lines.{scan_lines}
use limiz.Floats.{Floats}
use limiz.Collectors.Metric.{Metric}

-- `if cur.Len() > 0 { parts = append(parts, cur.String()) }`
abbrev flush : List Text → Text → List Text
flush parts [] = parts
flush parts (c ∷ cur) = parts ++ (c ∷ cur) ∷ []

-- the loop over the characters, with the parts, the current part and `inQuote`
split_loop : Text → List Text → Text → Bool → List Text
split_loop [] parts cur quoted = flush parts cur
split_loop (c ∷ s) parts cur quoted =
    let toggled = split_loop s parts (cur ++ c ∷ []) (not quoted) in
    let kept = split_loop s parts (cur ++ c ∷ []) quoted in
    let ended = split_loop s (parts ++ cur ∷ []) [] quoted in
    if c == b'"' then toggled else if c == b',' then (if quoted then kept else ended) else kept

unfoldable pub split_label_pairs : Text → List Text
unfolding split_loop
split_label_pairs s = split_loop s [] [] false

-- one round of the loop of `parseLabels`; a pair without `=` or without a key is skipped
add_pair : Map Text → Text → Map Text
add_pair labels pair = elim (cut b'=' pair) [
  | none ↦ labels
  | some (k, v) ↦ elim (trim_space k) [
    | [] ↦ labels
    | c ∷ key ↦ insert (c ∷ key) (trim b'"' (trim_space v)) labels
  ]
]

unfoldable pub parse_labels : Text → Map Text
unfolding add_pair split_label_pairs
parse_labels [] = []
parse_labels (c ∷ s) = foldl add_pair [] (split_label_pairs (c ∷ s))

module _ (fl : Floats) where
  open fl use {F, parse_float}

  -- the tail of `parseMetricLine`, from `strconv.ParseFloat` on
  with_value : Map Text → Map Text → Text → Map Text → Text → Option (Metric F)
  with_value helps types name labels value_text =
      let (v, valid) = parse_float value_text in
      if valid
      then some (record {
        name = name;
        help = lookup_text name helps;
        type = lookup_text name types;
        labels = labels;
        value = v;
      })
      else none

  -- a line without braces: the first two fields
  plain_line : Map Text → Map Text → List Text → Option (Metric F)
  unfolding with_value
  plain_line helps types (name ∷ value ∷ rest) = with_value helps types name [] value
  plain_line helps types _ = none

  -- what stands behind the opening brace
  braced_line : Map Text → Map Text → Text → Text → Option (Metric F)
  unfolding with_value parse_labels
  braced_line helps types name rest = elim (cut b'}' rest) [
    | none ↦ none
    | some (inside, tail) ↦ with_value helps types name (parse_labels inside) (trim_space tail)
  ]

  unfoldable pub parse_metric_line : Text → Map Text → Map Text → Option (Metric F)
  unfolding plain_line braced_line
  parse_metric_line line helps types = elim (cut b'{' line) [
    | some (name, rest) ↦ braced_line helps types name rest
    | none ↦ plain_line helps types (fields line)
  ]

  -- the variables of the loop of `parsePrometheusText`
  pub record State : Type 0 where
    pub metrics : List (Metric F)
    pub helps : Map Text
    pub types : Map Text

  abbrev pub start : State
  start = record { metrics = []; helps = []; types = [] }

  -- `rest[:idx]`, `rest[idx+1:]` at the first space
  note_help : State → Text → State
  note_help st rest = elim (cut b' ' rest) [
    | none ↦ st
    | some (name, help) ↦ record st { helps = insert name help st.helps }
  ]

  -- exactly two fields
  note_type : State → List Text → State
  note_type st (name ∷ type ∷ []) = record st { types = insert name type st.types }
  note_type st _ = st

  pub add_metric : State → Option (Metric F) → State
  add_metric st none = st
  add_metric st (some m) = record st { metrics = st.metrics ++ m ∷ [] }

  -- one round, on the trimmed line
  unfoldable pub read_line : State → Text → State
  unfolding note_help note_type add_metric parse_metric_line
  read_line st [] = st
  read_line st (c ∷ l) =
      let line = c ∷ l in
      if has_prefix (codes "# HELP ") line
      then note_help st (drop 7 line)
      else if has_prefix (codes "# TYPE ") line
      then note_type st (fields (drop 7 line))
      else if has_prefix (codes "#") line
      then st
      else add_metric st (parse_metric_line line st.helps st.types)

  pub step : State → Text → State
  unfolding read_line
  step st l = read_line st (trim_space l)

  unfoldable pub parse_prometheus_text : Text → List (Metric F)
  unfolding step
  parse_prometheus_text text = (foldl step start (scan_lines text)).metrics
