-- ===== src/Tls/Sources.antt =====
-- internal/tlsutil: the certificate that is found on a system that is not Windows.
use limiz.Base.{
  ◌≡◌, refl, Text, List, [], ◌∷◌, ◌++◌, ◌&&◌, not, arith, ◌≢◌, ◌∙◌, sym, Bool, true, false, codes,
  if◌then◌else◌, text_eq, Bool-cases, inl, inr,
}
use limiz.Tls.{
  ◌>>=◌, ret, Files, Pair, certificate, invalid, Loaded, loaded, refused, source, search_paths,
  not_found, search_pair, search_loop, platform_search, load_from_store, explicit, third_source,
  after_store, second_source, load_certificate,
}

module _ {C : Type 0} (files : Files C) where
  -- a pair of files that are there and are a certificate
  unfoldable pub usable_pair : Text × Text → Pair C → List (C × Text)
  usable_pair (cert, key) (certificate c) = (c, source (codes "system path") cert key) ∷ []
  usable_pair p (invalid err) = []

  unfoldable pub usable : List (Text × Text) → List (C × Text)
  unfolding usable_pair
  usable [] = []
  usable ((cert, key) ∷ ps) =
      (if files.file_exists cert && files.file_exists key
        then usable_pair (cert, key) (files.load_key_pair cert key)
        else [])
      ++ usable ps

  -- the first one, or the error
  unfoldable pub first_of : List (C × Text) → Loaded C
  first_of [] = refused not_found
  first_of ((c, src) ∷ cs) = loaded c src

  search_pair-usable :
      (p : Text × Text) (pair : Pair C) (rest : List (C × Text))
      → search_pair files p pair (first_of rest) ≡ first_of (usable_pair p pair ++ rest)
  unfolding search_pair first_of usable_pair
  search_pair-usable (cert, key) (certificate c) rest = refl
  search_pair-usable (cert, key) (invalid err) rest = refl

  search_loop-usable : (ps : List (Text × Text)) → search_loop files ps ≡ first_of (usable ps)
  unfolding search_loop usable first_of
  search_loop-usable [] = refl
  search_loop-usable ((cert, key) ∷ ps) =
      elim (Bool-cases (files.file_exists cert && files.file_exists key)) [
        | inl e ↦
            rw (search_loop, usable, e, search_loop-usable ps)
              (search_pair-usable (cert, key) (files.load_key_pair cert key) (usable ps))
        | inr e ↦ rw (search_loop, usable, e) (search_loop-usable ps)
      ]

  second_source-usable :
      {E W : Type 0} (store_name : Text) (w : W)
      → second_source {E = E} files load_from_store (platform_search files) store_name w
        ≡ (w, [], first_of (usable search_paths))
  unfolding second_source after_store third_source load_from_store platform_search ◌>>=◌ ret
  second_source-usable store_name w = elim (Bool-cases (text_eq store_name [])) [
    | inl e ↦ rw (second_source, e, search_loop-usable search_paths) refl
    | inr e ↦ rw (second_source, e, search_loop-usable search_paths) refl
  ]

  -- the given files if they are there, and otherwise the usable pairs of the search paths
  pub load_certificate-usable :
      {E W : Type 0} (cert_file key_file store_name : Text) (w : W)
      → load_certificate {E = E} files load_from_store
          (platform_search files)
          cert_file
          key_file
          store_name
          w
        ≡ (
          w,
          [],
          if (not (text_eq cert_file []) && not (text_eq key_file []))
                && (files.file_exists cert_file && files.file_exists key_file)
              then explicit files cert_file key_file (files.load_key_pair cert_file key_file)
              else first_of (usable search_paths),
        )
  unfolding load_certificate ret
  load_certificate-usable cert_file key_file store_name w =
      elim (Bool-cases (not (text_eq cert_file []) && not (text_eq key_file []))) [
        | inl e ↦ elim (Bool-cases (files.file_exists cert_file && files.file_exists key_file)) [
          | inl f ↦ rw (load_certificate, e, f) refl
          | inr f ↦ rw (load_certificate, e, f) (second_source-usable store_name w)
        ]
        | inr e ↦ rw (load_certificate, e) (second_source-usable store_name w)
      ]

invalid-ne-certificate : {C : Type 0} (err : Text) (c : C) → invalid err ≢ certificate c
invalid-ne-certificate err c h = absurd (ground arith)

module _ {C : Type 0} (files : Files C) where
  abbrev pub are_there : Text → Text → Bool
  are_there cert key = files.file_exists cert && files.file_exists key

  -- two names of files that are there
  abbrev pub are_given : Text → Text → Bool
  are_given cert key = (not (text_eq cert []) && not (text_eq key [])) && are_there cert key

  abbrev pub IsUsable : Text × Text → C → Type 0
  IsUsable (cert, key) c =
      (are_there cert key ≡ true) × (files.load_key_pair cert key ≡ certificate c)

  -- the first usable pair of the list, with the place that it comes from, or the error
  pub data Searched : List (Text × Text) → Loaded C → Type 0 where
    nowhere : Searched [] (refused not_found)
    here :
        {cert key : Text} {ps : List (Text × Text)} {c : C}
        → IsUsable (cert, key) c
        → Searched ((cert, key) ∷ ps) (loaded c (source (codes "system path") cert key))
    further :
        {p : Text × Text} {ps : List (Text × Text)} {r : Loaded C}
        → ((c : C) → ¬ IsUsable p c)
        → Searched ps r
        → Searched (p ∷ ps) r

  -- what the files and the search allow
  pub data Outcome (cert key : Text) : Loaded C → Type 0 where
    given :
        {c : C}
        → are_given cert key ≡ true
        → files.load_key_pair cert key ≡ certificate c
        → Outcome cert key (loaded c (source (codes "file") cert key))
    unreadable :
        {err : Text}
        → are_given cert key ≡ true
        → files.load_key_pair cert key ≡ invalid err
        → Outcome cert key (refused (codes "failed to load certificate files: " ++ err))
    searched :
        {r : Loaded C} → are_given cert key ≡ false → Searched search_paths r → Outcome cert key r

  search_pair-Searched :
      (cert key : Text) (ps : List (Text × Text)) (rest : Loaded C) (pair : Pair C)
      → are_there cert key ≡ true
      → files.load_key_pair cert key ≡ pair
      → Searched ps rest
      → Searched ((cert, key) ∷ ps) (search_pair files (cert, key) pair rest)
  unfolding search_pair
  search_pair-Searched cert key ps rest (certificate c) e h s = here (e, h)
  search_pair-Searched cert key ps rest (invalid err) e h s =
      further (λ c u. invalid-ne-certificate err c (sym h ∙ u.1)) s

  search_loop-Searched : (ps : List (Text × Text)) → Searched ps (search_loop files ps)
  unfolding search_loop
  search_loop-Searched [] = nowhere
  search_loop-Searched ((cert, key) ∷ ps) = elim (Bool-cases (are_there cert key)) [
    | inl e ↦
        rw (search_loop, e)
          (search_pair-Searched cert key ps (search_loop files ps) (files.load_key_pair cert key) e
            refl (search_loop-Searched ps))
    | inr e ↦ rw (search_loop, e) (further (λ c u. absurd (ground arith)) (search_loop-Searched ps))
  ]

  explicit-Outcome :
      (cert key : Text) (pair : Pair C)
      → are_given cert key ≡ true
      → files.load_key_pair cert key ≡ pair
      → Outcome cert key (explicit files cert key pair)
  unfolding explicit
  explicit-Outcome cert key (certificate c) e h = given e h
  explicit-Outcome cert key (invalid err) e h = unreadable e h

  -- On a system that is not Windows, `LoadCertificate` leaves the system as it is and, whatever the name of a
  -- store, ends with one of these. Two named files that are both there decide: it returns their certificate, with
  -- them as the source, or, where they do not load, the error that says so, and tries no other source. Otherwise
  -- it returns the certificate of the first pair of the search paths that is there and loads, with that pair as
  -- the source, and an error where there is none.
  pub load_certificate-Outcome :
      {E W : Type 0} (cert_file key_file store_name : Text) (w : W)
      → (r : Loaded C) × (load_certificate {E = E} files load_from_store
            (platform_search files)
            cert_file
            key_file
            store_name
            w
          ≡ (w, [], r))
        × Outcome cert_file key_file r
  load_certificate-Outcome cert_file key_file store_name w =
      elim (Bool-cases (are_given cert_file key_file)) [
        | inl e ↦ (
          explicit files cert_file key_file (files.load_key_pair cert_file key_file),
          load_certificate-usable files cert_file key_file store_name w ∙ rw e refl,
          explicit-Outcome cert_file key_file (files.load_key_pair cert_file key_file) e refl,
        )
        | inr e ↦ (
          search_loop files search_paths,
          load_certificate-usable files cert_file key_file store_name w
              ∙ rw (e, search_loop-usable files search_paths) refl,
          searched e (search_loop-Searched search_paths),
        )
      ]
