-- ===== src/Collectors/Parser/Samples.antt =====
-- What the parser makes of the sample line that `Collect` prints for a metric.
use limiz.Base.{
  Text, Map, [], ◌∷◌, ◌++◌, some, ◌==◌, lookup_text, ◌≡◌, ◌≢◌, ◌<◌, refl, arith, All, All-append,
  IsMap, ◌∙◌, ap,
}
use limiz.Strings.Affix.{has_prefix, cut-append, cut-Lacks, Lacks}
use limiz.Strings.Trim.{
  is_space, trim_space, trim_space-id, trim_space-cons, StartsOutside, EndsOutside,
  StartsOutside-append, StartsOutside-All, EndsOutside-All, EndsOutside-join,
}
use limiz.Strings.Fields.{fields-two, NoSpace-Lacks}
use limiz.Strings.Lines.{byte_length, max_scan_token_size}
use limiz.Floats.{Floats}
use limiz.Collectors.Metric.{Metric}
use limiz.Collectors.Registry.{sample_line, label_text, sample_of}
use limiz.Collectors.Parser.{
  State, read_line, add_metric, parse_metric_line, braced_line, with_value, parse_labels,
}
use limiz.Collectors.Parser.Labels.{
  IsLabel, parse_labels-label_text, label_text-no_break, label_text-no_brace,
}
use limiz.Collectors.Parser.Reading.{
  IsLine, IsLine-append, append-ne-nil, PrintsNumbers, IsPrintable,
}

module _ (fl : Floats) where
  open fl use {F, format_g, parse_float}

  module _ (nums : PrintsNumbers fl) (m : Metric F) (p : IsPrintable fl m) where
    abbrev number : Text
    number = format_g m.value

    number-ends : (pre : Text) → EndsOutside is_space (pre ++ number)
    number-ends pre =
        EndsOutside-join is_space pre number (nums.nonempty m.value)
          (EndsOutside-All is_space number (nums.solid m.value))

    number-no_break : Lacks b'\n' number
    unfolding is_space
    number-no_break = NoSpace-Lacks b'\n' number refl (nums.solid m.value)

    name-starts : StartsOutside is_space m.name
    name-starts = StartsOutside-All is_space m.name p.name_solid

    sample_of-IsLine :
        (ls : Map Text)
        → All IsLabel ls
        → byte_length (sample_of fl m ls) < max_scan_token_size
        → IsLine (sample_of fl m ls)
    sample_of-IsLine [] h fits =
        unfold sample_of in
        IsLine-append m.name (b' ' ∷ number) p.name_nonempty (cc) name-starts
          (number-ends (b' ' ∷ []))
          (NoSpace-Lacks b'\n' m.name (unfold is_space in refl) p.name_solid)
          (omega arith, number-no_break) fits
    sample_of-IsLine (l ∷ ls) h fits =
        unfold sample_of in
        IsLine-append m.name (b'{' ∷ (label_text fl (l ∷ ls) ++ b'}' ∷ b' ' ∷ number))
          p.name_nonempty (cc) name-starts
          (EndsOutside-join is_space (b'{' ∷ label_text fl (l ∷ ls)) (b'}' ∷ b' ' ∷ number) (cc)
            (number-ends (b'}' ∷ b' ' ∷ [])))
          (NoSpace-Lacks b'\n' m.name (unfold is_space in refl) p.name_solid)
          (
            omega arith,
            All-append _ (label_text fl (l ∷ ls)) _
                (unfold label_text in label_text-no_break (l ∷ ls) h)
                (omega arith, (omega arith, number-no_break)),
          )
          fits

    pub sample_line-IsLine : IsLine (sample_line fl m)
    sample_line-IsLine =
        let fits = p.sample_fits in unfold sample_line in sample_of-IsLine m.labels p.labels fits

    module _ (helps types : Map Text) (help : lookup_text m.name helps ≡ m.help)
        (type : lookup_text m.name types ≡ m.type) where
      trim_space-number : trim_space (b' ' ∷ number) ≡ number
      trim_space-number =
          trim_space-cons b' ' number (unfold is_space in refl)
          ∙ trim_space-id number (StartsOutside-All is_space number (nums.solid m.value))
              (number-ends [])

      labels_read :
          (l : Text × Text) (ls : Map Text)
          → All IsLabel (l ∷ ls)
          → IsMap (l ∷ ls)
          → parse_labels (label_text fl (l ∷ ls)) ≡ l ∷ ls
      unfolding label_text
      labels_read l ls h u = parse_labels-label_text l ls h u

      with_value-number :
          (ls : Map Text)
          → with_value fl helps types m.name ls number ≡ some (record m { labels = ls })
      unfolding with_value
      with_value-number ls = rw (nums.read_back m.value) (rw (help, type))

      parse_metric_line-sample_of :
          (ls : Map Text)
          → All IsLabel ls
          → IsMap ls
          → parse_metric_line fl (sample_of fl m ls) helps types ≡ some (record m { labels = ls })
      unfolding parse_metric_line sample_of
      parse_metric_line-sample_of [] h u =
          rw
            (
              cut-Lacks b'{' (m.name ++ b' ' ∷ number)
                  (All-append _ m.name _ p.name_no_brace (omega arith, nums.no_brace m.value)),
              parse_metric_line,
            )
            (rw
              (fields-two m.name number p.name_nonempty (nums.nonempty m.value) p.name_solid
                (nums.solid m.value))
              (with_value-number []))
      parse_metric_line-sample_of (l ∷ ls) h u =
          rw (cut-append b'{' m.name _ p.name_no_brace, parse_metric_line)
            (rw
              (
                cut-append b'}' (label_text fl (l ∷ ls)) (b' ' ∷ number)
                    (unfold label_text in label_text-no_brace (l ∷ ls) h),
                braced_line,
              )
              (rw (trim_space-number, labels_read l ls h u) (with_value-number (l ∷ ls))))

      pub parse_metric_line-sample_line :
          parse_metric_line fl (sample_line fl m) helps types ≡ some m
      parse_metric_line-sample_line =
          unfold sample_line in parse_metric_line-sample_of m.labels p.labels p.unique

    -- no comment, so the line is read as a sample
    read_line-sample :
        (st : State fl) (l : Text)
        → l ≢ []
        → StartsOutside (λ c. c == b'#') l
        → read_line fl st l ≡ add_metric fl st (parse_metric_line fl l st.helps st.types)
    unfolding read_line has_prefix
    read_line-sample st [] n h = absurd (n refl)
    read_line-sample st (c ∷ l) n h = ground arith

    sample_of-starts : (ls : Map Text) → StartsOutside (λ c. c == b'#') (sample_of fl m ls)
    unfolding sample_of
    sample_of-starts [] = StartsOutside-append _ m.name _ p.name_nonempty p.name_no_hash
    sample_of-starts (l ∷ ls) = StartsOutside-append _ m.name _ p.name_nonempty p.name_no_hash

    sample_of-ne-nil : (ls : Map Text) → sample_of fl m ls ≢ []
    unfolding sample_of
    sample_of-ne-nil [] = append-ne-nil m.name _ p.name_nonempty
    sample_of-ne-nil (l ∷ ls) = append-ne-nil m.name _ p.name_nonempty

    sample_line-ne-nil : sample_line fl m ≢ []
    unfolding sample_line
    sample_line-ne-nil = sample_of-ne-nil m.labels

    sample_line-starts : StartsOutside (λ c. c == b'#') (sample_line fl m)
    sample_line-starts = unfold sample_line in sample_of-starts m.labels

    pub read_line-sample_line :
        (st : State fl)
        → lookup_text m.name st.helps ≡ m.help
        → lookup_text m.name st.types ≡ m.type
        → read_line fl st (sample_line fl m) ≡ record st { metrics = st.metrics ++ m ∷ [] }
    read_line-sample_line st help type =
        read_line-sample st (sample_line fl m) sample_line-ne-nil sample_line-starts
        ∙ ap (add_metric fl st) (parse_metric_line-sample_line st.helps st.types help type)
        ∙ (unfold add_metric in refl)
