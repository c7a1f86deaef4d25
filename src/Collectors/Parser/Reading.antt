-- ===== src/Collectors/Parser/Reading.antt =====
-- What the parser makes of each line that `Collect` prints.
use limiz.Base.{
  Text, [], ◌∷◌, ◌++◌, true, codes, ◌==◌, insert, ◌≡◌, ◌≢◌, ◌<◌, refl, arith, All, All-append,
  IsMap, ◌∙◌, ap,
}
use mathlib.Core.List.{foldl}
use limiz.Strings.Affix.{has_prefix, cut-append, Lacks}
use limiz.Strings.Trim.{
  is_space, StartsOutside, EndsOutside, StartsOutside-append, EndsOutside-All, EndsOutside-join,
}
use limiz.Strings.Fields.{fields-two, NoSpace, NoSpace-Lacks}
use limiz.Strings.Lines.{
  scan_lines, scan_lines-cons, byte_length, max_scan_token_size, trim_space-trim_suffix,
}
use limiz.Floats.{Floats}
use limiz.Collectors.Metric.{Metric}
use limiz.Collectors.Registry.{help_line, type_line, sample_line}
use limiz.Collectors.Parser.{State, step, read_line, note_help}
use limiz.Collectors.Parser.Labels.{IsLabel}

-- a line that the scanner hands over as it was printed
pub record IsLine (l : Text) : Type 0 where
  pub no_break : Lacks b'\n' l
  pub fits : byte_length l < max_scan_token_size
  pub starts : StartsOutside is_space l
  pub ends : EndsOutside is_space l

pub append-ne-nil : (a b : Text) → a ≢ [] → (a ++ b) ≢ []
append-ne-nil [] b n = absurd (n refl)
append-ne-nil (c ∷ a) b n = cc

pub IsLine-append :
    (a b : Text)
    → a ≢ []
    → b ≢ []
    → StartsOutside is_space a
    → EndsOutside is_space b
    → Lacks b'\n' a
    → Lacks b'\n' b
    → byte_length (a ++ b) < max_scan_token_size
    → IsLine (a ++ b)
IsLine-append a b na nb sa eb la lb f = record {
  no_break = All-append _ a b la lb;
  fits = f;
  starts = StartsOutside-append is_space a b na sa;
  ends = EndsOutside-join is_space a b nb eb;
}

-- What is documented of `%g` and `ParseFloat`: a printed number is one word, and is read back.
pub record PrintsNumbers (fl : Floats) : Type 0 where
  pub nonempty : (v : fl.F) → fl.format_g v ≢ []
  pub solid : (v : fl.F) → NoSpace (fl.format_g v)
  pub no_brace : (v : fl.F) → Lacks b'{' (fl.format_g v)
  pub read_back : (v : fl.F) → fl.parse_float (fl.format_g v) ≡ (v, true)

module _ (fl : Floats) where
  open fl use {F, format_g, parse_float}

  -- a metric whose printed form hides nothing of it
  pub record IsPrintable (m : Metric F) : Type 0 where
    pub name_nonempty : m.name ≢ []
    pub name_solid : NoSpace m.name
    pub name_no_brace : Lacks b'{' m.name
    pub name_no_hash : StartsOutside (λ c. c == b'#') m.name
    pub help_nonempty : m.help ≢ []
    pub help_no_break : Lacks b'\n' m.help
    pub help_ends : EndsOutside is_space m.help
    pub type_nonempty : m.type ≢ []
    pub type_solid : NoSpace m.type
    pub labels : All IsLabel m.labels
    pub unique : IsMap m.labels
    pub help_fits : byte_length (help_line fl m) < max_scan_token_size
    pub type_fits : byte_length (type_line fl m) < max_scan_token_size
    pub sample_fits : byte_length (sample_line fl m) < max_scan_token_size

  -- the parser's loop over a text
  abbrev pub run : State fl → Text → State fl
  run st text = foldl (step fl) st (scan_lines text)

  pub run-line :
      (st : State fl) (l rest : Text)
      → IsLine l
      → run st (l ++ b'\n' ∷ rest) ≡ run (read_line fl st l) rest
  run-line st l rest h =
      ap (foldl (step fl) st) (scan_lines-cons l rest h.no_break h.fits)
      ∙ ap (λ t. run t rest)
          (unfold step in ap (read_line fl st) (trim_space-trim_suffix l h.starts h.ends))

  blank-IsLine : IsLine []
  unfolding byte_length
  blank-IsLine = record { no_break = tt; fits = omega arith; starts = tt; ends = tt }

  -- the empty line behind each collector's metrics
  pub run-blank : (st : State fl) (rest : Text) → run st (b'\n' ∷ rest) ≡ run st rest
  run-blank st rest = run-line st [] rest blank-IsLine ∙ (unfold read_line in refl)

  module _ (m : Metric F) (p : IsPrintable m) (st : State fl) where
    pub read_line-help_line :
        read_line fl st (help_line fl m) ≡ record st { helps = insert m.name m.help st.helps }
    unfolding read_line help_line has_prefix is_space
    read_line-help_line =
        rw (cut-append b' ' m.name m.help (NoSpace-Lacks b' ' m.name refl p.name_solid), note_help)

    pub read_line-type_line :
        read_line fl st (type_line fl m) ≡ record st { types = insert m.name m.type st.types }
    unfolding read_line type_line has_prefix
    read_line-type_line =
        rw (fields-two m.name m.type p.name_nonempty p.type_nonempty p.name_solid p.type_solid)

    name_no_break : Lacks b'\n' m.name
    unfolding is_space
    name_no_break = NoSpace-Lacks b'\n' m.name refl p.name_solid

    -- a word, a blank and a text
    spaced-ends :
        (t : Text) → t ≢ [] → EndsOutside is_space t → EndsOutside is_space (m.name ++ b' ' ∷ t)
    spaced-ends t n e =
        EndsOutside-join is_space m.name (b' ' ∷ t) (cc)
          (EndsOutside-join is_space (b' ' ∷ []) t n e)

    spaced-no_break : (t : Text) → Lacks b'\n' t → Lacks b'\n' (m.name ++ b' ' ∷ t)
    spaced-no_break t h = All-append _ m.name (b' ' ∷ t) name_no_break (omega arith, h)

    spaced-ne-nil : (t : Text) → (m.name ++ b' ' ∷ t) ≢ []
    spaced-ne-nil t = append-ne-nil m.name (b' ' ∷ t) p.name_nonempty

    pub help_line-IsLine : IsLine (help_line fl m)
    help_line-IsLine =
        let fits = p.help_fits in
        unfold help_line is_space in
        IsLine-append (codes "# HELP ") (m.name ++ b' ' ∷ m.help) (cc) (spaced-ne-nil m.help) refl
          (spaced-ends m.help p.help_nonempty p.help_ends) (omega arith)
          (spaced-no_break m.help p.help_no_break) fits

    pub type_line-IsLine : IsLine (type_line fl m)
    type_line-IsLine =
        let fits = p.type_fits in
        unfold type_line is_space in
        IsLine-append (codes "# TYPE ") (m.name ++ b' ' ∷ m.type) (cc) (spaced-ne-nil m.type) refl
          (spaced-ends m.type p.type_nonempty (EndsOutside-All is_space m.type p.type_solid))
          (omega arith) (spaced-no_break m.type (NoSpace-Lacks b'\n' m.type refl p.type_solid)) fits
