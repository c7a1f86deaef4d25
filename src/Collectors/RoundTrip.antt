-- ===== src/Collectors/RoundTrip.antt =====
-- internal/collectors: the registry and the plugin parser together.
use limiz.Base.{
  Text, Map, List, [], ◌∷◌, ◌++◌, Bool, true, if◌then◌else◌, lookup, insert, lookup_text,
  lookup-insert, lookup_text-insert, text_eq, text_eq_refl, text_eq→eq, ◌≡◌, refl, sym, arith,
  append_assoc, append-nil, All, All-left, All-right, ◌∙◌, ap, Bool-cases, inl, inr,
}
use mathlib.Core.Path.{subst}
use limiz.Strings.Lines.{scan_lines}
use limiz.Floats.{Floats}
use limiz.Collectors.Metric.{Metric, Collector, Registry}
use limiz.Collectors.Registry.{
  collect, collect_raw, raw_loop, collect_loop, section_text, expose, is_seen, help_line, type_line,
  sample_line,
}
use limiz.Collectors.Parser.{State, start, parse_prometheus_text}
use limiz.Collectors.Parser.Reading.{
  PrintsNumbers, IsPrintable, run, run-line, run-blank, help_line-IsLine, type_line-IsLine,
  read_line-help_line, read_line-type_line,
}
use limiz.Collectors.Parser.Samples.{sample_line-IsLine, read_line-sample_line}

module _ (fl : Floats) where
  open fl use {F}

  -- metrics of one name have one help text and one type
  pub record Catalog : Type 0 where
    pub help : Text → Text
    pub type : Text → Text

  pub record IsListed (cat : Catalog) (m : Metric F) : Type 0 where
    pub printable : IsPrintable fl m
    pub help : m.help ≡ cat.help m.name
    pub type : m.type ≡ cat.type m.name

  module _ (nums : PrintsNumbers fl) (cat : Catalog) where
    -- the parser knows the help and the type of every name whose header has been printed
    record Knows (st : State fl) (seen : Map Bool) : Type 0 where
      helps : (k : Text) → is_seen k seen ≡ true → lookup_text k st.helps ≡ cat.help k
      types : (k : Text) → is_seen k seen ≡ true → lookup_text k st.types ≡ cat.type k

    header : Metric F → Map Bool → Text
    header m seen =
        if is_seen m.name seen then [] else help_line fl m ++ b'\n' ∷ (type_line fl m ++ b'\n' ∷ [])

    described : State fl → Metric F → Map Bool → State fl
    described st m seen = if is_seen m.name seen then st else record st {
      helps = insert m.name m.help st.helps;
      types = insert m.name m.type st.types;
    }

    run-header :
        (st : State fl) (m : Metric F) (seen : Map Bool) (rest : Text)
        → IsListed cat m
        → run fl st (header m seen ++ rest) ≡ run fl (described st m seen) rest
    unfolding header described
    run-header st m seen rest l = elim (Bool-cases (is_seen m.name seen)) [
      | inl e ↦ rw e
      | inr e ↦
          rw (e, append_assoc, append_assoc)
            (run-line fl st (help_line fl m) _ (help_line-IsLine fl m l.printable st)
              ∙ ap (λ t. run fl t (type_line fl m ++ b'\n' ∷ rest))
                  (read_line-help_line fl m l.printable st)
              ∙ run-line fl _ (type_line fl m) rest (type_line-IsLine fl m l.printable st)
              ∙ ap (λ t. run fl t rest) (read_line-type_line fl m l.printable _))
    ]

    is_seen-insert :
        (k j : Text) (seen : Map Bool)
        → is_seen j (insert k true seen) ≡ (if text_eq k j then true else is_seen j seen)
    is_seen-insert k j seen = ground (arith, lookup-insert k j true seen)

    Knows-described :
        (st : State fl) (m : Metric F) (seen : Map Bool)
        → IsListed cat m
        → Knows st seen
        → Knows (described st m seen) (insert m.name true seen)
    unfolding described
    Knows-described st m seen l h = record {
      helps = λ k e. ground (
        arith,
        lookup-insert m.name k true seen,
        h.helps k,
        lookup_text-insert m.name k m.help st.helps,
        text_eq→eq m.name k,
        l.help,
      );
      types = λ k e. ground (
        arith,
        lookup-insert m.name k true seen,
        h.types k,
        lookup_text-insert m.name k m.type st.types,
        text_eq→eq m.name k,
        l.type,
      );
    }

    -- after its header a metric's own help and type are at hand
    Knows-self :
        (st : State fl) (m : Metric F) (seen : Map Bool)
        → IsListed cat m
        → Knows st (insert m.name true seen)
        → (lookup_text m.name st.helps ≡ m.help) × (lookup_text m.name st.types ≡ m.type)
    Knows-self st m seen l h =
        let e = is_seen-insert m.name m.name seen ∙ (rw text_eq_refl) in
        (h.helps m.name e ∙ sym l.help, h.types m.name e ∙ sym l.type)

    metrics-described :
        (st : State fl) (m : Metric F) (seen : Map Bool)
        → (described st m seen).metrics ≡ st.metrics
    unfolding described
    metrics-described st m seen = ground arith

    abbrev with_metric : State fl → Metric F → State fl
    with_metric st m = record st { metrics = st.metrics ++ m ∷ [] }

    Knows-with_metric :
        (st : State fl) (m : Metric F) (seen : Map Bool)
        → Knows st seen
        → Knows (with_metric st m) seen
    Knows-with_metric st m seen h = record { helps = h.helps; types = h.types }

    -- the state behind the metrics of one collector
    after : State fl → List (Metric F) → Map Bool → State fl
    after st [] seen = st
    after st (m ∷ ms) seen =
        after (with_metric (described st m seen) m) ms (insert m.name true seen)

    run-expose :
        (ms : List (Metric F)) (st : State fl) (seen : Map Bool) (rest : Text)
        → All (IsListed cat) ms
        → Knows st seen
        → run fl st (expose fl ms seen ++ rest) ≡ run fl (after st ms seen) rest
    unfolding after expose header
    run-expose [] st seen rest l h = refl
    run-expose (m ∷ ms) st seen rest l h =
        let seen' = insert m.name true seen in
        let st' = described st m seen in
        let h' = Knows-described st m seen l.0 h in
        let known = Knows-self st' m seen l.0 h' in
        ap (run fl st) (append_assoc (header m seen) _ rest)
        ∙ run-header st m seen _ l.0
        ∙ ap (run fl st') (append_assoc (sample_line fl m) (b'\n' ∷ expose fl ms seen') rest)
        ∙ run-line fl st' (sample_line fl m) (expose fl ms seen' ++ rest)
            (sample_line-IsLine fl nums m l.0.printable)
        ∙ ap (λ t. run fl t (expose fl ms seen' ++ rest))
            (read_line-sample_line fl nums m l.0.printable st' known.0 known.1)
        ∙ run-expose ms (with_metric st' m) seen' rest l.1 (Knows-with_metric st' m seen' h')

    metrics-after :
        (ms : List (Metric F)) (st : State fl) (seen : Map Bool)
        → (after st ms seen).metrics ≡ st.metrics ++ ms
    unfolding after
    metrics-after [] st seen = sym (append-nil st.metrics)
    metrics-after (m ∷ ms) st seen =
        metrics-after ms _ _
        ∙ ap (λ t. (t ++ m ∷ []) ++ ms) (metrics-described st m seen)
        ∙ append_assoc st.metrics (m ∷ []) ms

    run-section_text :
        (ms : List (Metric F)) (st : State fl) (rest : Text)
        → All (IsListed cat) ms
        → run fl st (section_text fl ms ++ rest) ≡ run fl (after st ms []) rest
    unfolding section_text after
    run-section_text [] st rest l = refl
    run-section_text (m ∷ ms) st rest l =
        ap (run fl st) (append_assoc (expose fl (m ∷ ms) []) (b'\n' ∷ []) rest)
        ∙ run-expose (m ∷ ms) st [] (b'\n' ∷ rest) l
            (unfold lookup in record { helps = λ k e. cc; types = λ k e. cc })
        ∙ run-blank fl _ rest

    module _ {W : Type 0} where
      -- the metrics of the collectors in turn, each in the world that the one before it left
      gather : List (Collector W F) → W → List (Metric F)
      gather [] w = []
      gather (c ∷ cs) w = (c.collect w).1 ++ gather cs (c.collect w).0

      raw_loop-gather :
          (cs : List (Collector W F)) (w : W) (all : List (Metric F))
          → (raw_loop cs w all).1 ≡ all ++ gather cs w
      unfolding raw_loop gather
      raw_loop-gather [] w all = sym (append-nil all)
      raw_loop-gather (c ∷ cs) w all =
          raw_loop-gather cs (c.collect w).0 _ ∙ append_assoc all (c.collect w).1 _

      metrics-collect_loop :
          (cs : List (Collector W F)) (w : W) (st : State fl)
          → All (IsListed cat) (gather cs w)
          → (run fl st (collect_loop fl cs w).1).metrics ≡ st.metrics ++ gather cs w
      unfolding gather collect_loop
      metrics-collect_loop [] w st l = unfold scan_lines in sym (append-nil st.metrics)
      metrics-collect_loop (c ∷ cs) w st l =
          let ms = (c.collect w).1 in
          let w' = (c.collect w).0 in
          ap (λ (t : State fl). t.metrics)
            (run-section_text ms st _ (All-left (IsListed cat) ms _ l))
          ∙ metrics-collect_loop cs w' (after st ms []) (All-right (IsListed cat) ms _ l)
          ∙ ap (λ t. t ++ gather cs w') (metrics-after ms st [])
          ∙ append_assoc st.metrics ms _

      -- Parsing what `Collect` writes gives exactly what `CollectRaw` returns in the same world: the
      -- same metrics in the same order, each with its name, help text, type, labels and value. The
      -- metrics have to be printable, and those of one name have one help text and one type.
      pub parse_prometheus_text-collect :
          (r : Registry W F) (w : W)
          → All (IsListed cat) (collect_raw r w).1
          → parse_prometheus_text fl (collect fl r w).1 ≡ (collect_raw r w).1
      parse_prometheus_text-collect r w l =
          unfold parse_prometheus_text collect collect_raw in
          let e = raw_loop-gather r.collectors w [] in
          metrics-collect_loop r.collectors w (start fl) (subst (All (IsListed cat)) e l) ∙ sym e
