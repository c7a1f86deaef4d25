-- ===== src/Datas/Linux/OsRelease/Quoted.antt =====
-- internal/datas/providers_linux.go: the operating system from lines of the form `<key>="<value>"`.
use limiz.Base.{
  Text, Map, [], ◌∷◌, ◌++◌, true, false, none, some, codes, map, if◌then◌else◌, text_eq, text_eq→eq,
  lookup, lookup_text, Fresh, IsMap, All, All-append, ne→text_eq, ◌≡◌, ◌≢◌, ◌<◌, refl, ap, ◌∙◌, sym,
  arith, Bool-cases, inl, inr, ◌==◌,
}
use limiz.Strings.Affix.{cut-append, Lacks}
use limiz.Strings.Trim.{trim_space, trim-quoted, EndsOutside-join}
use limiz.Strings.Lines.{unlines, IsScanned, scan_lines-unlines, byte_length, max_scan_token_size}
use limiz.Datas.Linux.{Machine}
use limiz.Datas.Linux.OsRelease.{
  OsInfo, parse_kv, set_key, release_loop, read_release, set_kernel, empty_info, collect_os,
}

unfoldable pub quoted_line : Text × Text → Text
quoted_line (k, v) = k ++ b'=' ∷ b'"' ∷ (v ++ b'"' ∷ [])

pub record IsQuoted (e : Text × Text) : Type 0 where
  pub key_no_equals : Lacks b'=' e.0
  pub key_no_break : Lacks 10 e.0
  pub value_no_quote : Lacks b'"' e.1
  pub value_no_break : Lacks 10 e.1
  pub fits : byte_length (quoted_line e) < max_scan_token_size

-- a quoted line is read as its key and its value
pub parse_kv-quoted_line : (e : Text × Text) → IsQuoted e → parse_kv (quoted_line e) ≡ e
unfolding parse_kv quoted_line
parse_kv-quoted_line (k, v) h =
    rw (cut-append b'=' k (b'"' ∷ (v ++ b'"' ∷ [])) h.key_no_equals, parse_kv)
      (ap (λ t. (k, t)) (trim-quoted b'"' v h.value_no_quote))

quoted_line-IsScanned : (e : Text × Text) → IsQuoted e → IsScanned (quoted_line e)
quoted_line-IsScanned (k, v) h =
    let fits = h.fits in
    unfold quoted_line in
    (
      All-append (λ d. d ≢ 10) k (b'=' ∷ b'"' ∷ (v ++ b'"' ∷ [])) h.key_no_break
          (
            omega arith,
            (
              omega arith,
              All-append (λ d. d ≢ 10) v (b'"' ∷ []) h.value_no_break (omega arith, tt),
            ),
          ),
      EndsOutside-join (λ c. c == 13) k (b'=' ∷ b'"' ∷ (v ++ b'"' ∷ [])) (cc)
          (EndsOutside-join (λ c. c == 13) (b'=' ∷ b'"' ∷ v) (b'"' ∷ []) (cc) refl),
      fits,
    )

-- the value behind more entries, for a field that `key` sets
abbrev pub or_later : Text → Map Text → Text → Text
or_later key es old = elim (lookup key es) [ none ↦ old | some v ↦ v ]

after : OsInfo → Map Text → OsInfo
after info es = record info {
  name = or_later (codes "NAME") es info.name;
  version = or_later (codes "VERSION") es info.version;
  id = or_later (codes "ID") es info.id;
  pretty_name = or_later (codes "PRETTY_NAME") es info.pretty_name;
}

Fresh-lookup : (k : Text) (es : Map Text) → Fresh k es → lookup k es ≡ none
unfolding lookup
Fresh-lookup k [] h = refl
Fresh-lookup k ((j, v) ∷ es) h = rw (ne→text_eq j k h.0) (Fresh-lookup k es h.1)

-- a text is equal to at most one of two different texts
apart : (a b k : Text) → text_eq a b ≡ false → text_eq k a ≡ true → text_eq k b ≡ false
apart a b k d e = ap (λ t. text_eq t b) (text_eq→eq k a e) ∙ d

or_later-cons :
    (key k v old : Text) (es : Map Text)
    → Fresh k es
    → or_later key es (if text_eq k key then v else old) ≡ or_later key ((k, v) ∷ es) old
unfolding lookup
or_later-cons key k v old es h = elim (Bool-cases (text_eq k key)) [
  | inl e ↦
      let found = ap (λ t. lookup t es) (sym (text_eq→eq k key e)) ∙ Fresh-lookup k es h in
      rw (e, found, or_later, e) refl
  | inr e ↦
      ap (λ t. or_later key es (if t then v else old)) e
      ∙ sym (
          ap
            (λ t. elim (if t then some v else lookup key es) as (λ _. Text) [
              | none ↦ old
              | some w ↦ w
            ])
            e)
]

abbrev sets : OsInfo → Text → Text → OsInfo
sets info k v = record info {
  name = if text_eq k (codes "NAME") then v else info.name;
  version = if text_eq k (codes "VERSION") then v else info.version;
  id = if text_eq k (codes "ID") then v else info.id;
  pretty_name = if text_eq k (codes "PRETTY_NAME") then v else info.pretty_name;
}

set_key-sets : (info : OsInfo) (k v : Text) → set_key info k v ≡ sets info k v
unfolding set_key
set_key-sets info k v = ground (
  arith,
  apart (codes "NAME") (codes "VERSION") k (unfold text_eq in refl),
  apart (codes "NAME") (codes "ID") k (unfold text_eq in refl),
  apart (codes "NAME") (codes "PRETTY_NAME") k (unfold text_eq in refl),
  apart (codes "VERSION") (codes "ID") k (unfold text_eq in refl),
  apart (codes "VERSION") (codes "PRETTY_NAME") k (unfold text_eq in refl),
  apart (codes "ID") (codes "PRETTY_NAME") k (unfold text_eq in refl),
)

after-cons :
    (info : OsInfo) (k v : Text) (es : Map Text)
    → Fresh k es
    → after (set_key info k v) es ≡ after info ((k, v) ∷ es)
unfolding after
after-cons info k v es h =
    rw
      (
        set_key-sets info k v,
        or_later-cons (codes "NAME") k v info.name es h,
        or_later-cons (codes "VERSION") k v info.version es h,
        or_later-cons (codes "ID") k v info.id es h,
        or_later-cons (codes "PRETTY_NAME") k v info.pretty_name es h,
      )
      refl

release_loop-after :
    (info : OsInfo) (es : Map Text)
    → All IsQuoted es
    → IsMap es
    → release_loop info (map quoted_line es) ≡ after info es
unfolding release_loop after lookup
release_loop-after info [] h u = refl
release_loop-after info ((k, v) ∷ es) h u =
    rw (parse_kv-quoted_line (k, v) h.0, release_loop)
      (release_loop-after (set_key info k v) es h.1 u.1 ∙ after-cons info k v es u.0)

lines-IsScanned : (es : Map Text) → All IsQuoted es → All IsScanned (map quoted_line es)
lines-IsScanned [] h = tt
lines-IsScanned (e ∷ es) h = (quoted_line-IsScanned e h.0, lines-IsScanned es h.1)

-- Where /etc/os-release has lines `<key>="<value>"`, each key once, Collect returns the values of
-- NAME, VERSION, ID and PRETTY_NAME, and an empty text for a key that is not there; the kernel is what
-- uname prints, trimmed.
pub collect_os-quoted :
    (m : Machine) (es : Map Text) (out : Text)
    → All IsQuoted es
    → IsMap es
    → m.read_file (codes "/etc/os-release") ≡ some (unlines (map quoted_line es))
    → m.run (codes "uname") (codes "-r" ∷ []) ≡ record { stdout = out; err = none }
    → collect_os m ≡ record {
      name = lookup_text (codes "NAME") es;
      version = lookup_text (codes "VERSION") es;
      id = lookup_text (codes "ID") es;
      pretty_name = lookup_text (codes "PRETTY_NAME") es;
      kernel = trim_space out;
    }
unfolding collect_os read_release set_kernel lookup_text after
collect_os-quoted m es out h u f k =
    rw (f, k, scan_lines-unlines (map quoted_line es) (lines-IsScanned es h))
      (ap (λ (i : OsInfo). record i { kernel = trim_space out })
        (release_loop-after empty_info es h u))
