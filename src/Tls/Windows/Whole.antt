-- ===== src/Tls/Windows/Whole.antt =====
-- internal/tlsutil: the handles of `LoadCertificate` on Windows, whatever the source of the certificate.
use limiz.Base.{◌≡◌, refl, sym, Text, List, [], ◌∷◌, not, ◌&&◌, some, text_eq, Bool-cases, inl, inr}
use limiz.Effects.{ret}
use limiz.Tls.{
  Files, Pair, certificate, invalid, Loaded, loaded, refused, explicit, load_certificate,
  second_source, after_store, third_source,
}
use limiz.Tls.Windows.{Crypt, Certificate, load_from_store}
use limiz.Tls.Windows.Search.{
  in_files, wrapped, windows_paths, path_pair, path_loop, or_paths, windows_search,
}
use limiz.Tls.Windows.Handles.{settle, settled, Turns, ret-Turns, bind-Turns}
use limiz.Tls.Windows.Held.{kept, load_from_store-Turns}

ret-kept :
    {W C X : Type 0} (r : Loaded (Certificate C X)) → kept r ≡ [] → Turns {W = W} [] kept (ret r)
ret-kept r h = rw (sym h) (ret-Turns kept r)

module _ {C : Type 0} (X : Type 0) (files : Files C) where
  path_pair-kept :
      (p : Text × Text) (pair : Pair C) (rest : Loaded (Certificate C X))
      → kept rest ≡ []
      → kept (path_pair {X = X} (in_files files) p (wrapped pair) rest) ≡ []
  unfolding path_pair wrapped kept
  path_pair-kept (cert, key) (certificate c) rest h = refl
  path_pair-kept (cert, key) (invalid err) rest h = h

  path_loop-kept :
      (default_store : Text) (ps : List (Text × Text))
      → kept (path_loop {X = X} (in_files files) default_store ps) ≡ []
  unfolding path_loop kept in_files
  path_loop-kept default_store [] = refl
  path_loop-kept default_store ((cert, key) ∷ ps) =
      elim (Bool-cases (files.file_exists cert && files.file_exists key)) [
        | inl e ↦ rw e (
            path_pair-kept (cert, key) (files.load_key_pair cert key)
              (path_loop (in_files files) default_store ps) (path_loop-kept default_store ps))
        | inr e ↦ rw e (path_loop-kept default_store ps)
      ]

  explicit-kept :
      (cert key : Text) (pair : Pair C)
      → kept (explicit {C = Certificate C X} (in_files files) cert key (wrapped pair)) ≡ []
  unfolding explicit kept wrapped
  explicit-kept cert key (certificate c) = refl
  explicit-kept cert key (invalid err) = refl

module _ {W C X : Type 0} (api : Crypt W X) (files : Files C) where
  or_paths-Turns :
      (default_store : Text) (r : Loaded (Certificate C X))
      → Turns (kept r) kept (or_paths api (in_files files) default_store r)
  unfolding or_paths kept
  or_paths-Turns default_store (loaded c src) = ret-Turns kept (loaded c src)
  or_paths-Turns default_store (refused err) =
      ret-kept (path_loop (in_files files) default_store windows_paths)
        (path_loop-kept X files default_store windows_paths)

  windows_search-Turns :
      (default_store : Text) → Turns [] kept (windows_search api (in_files files) default_store)
  unfolding windows_search
  windows_search-Turns default_store =
      bind-Turns [] kept kept _ _ (load_from_store-Turns api default_store)
        (or_paths-Turns default_store)

  after_store-Turns :
      (store_name : Text) (r : Loaded (Certificate C X))
      → Turns (kept r) kept (
          after_store
            (in_files files)
            (load_from_store api)
            (windows_search api (in_files files))
            store_name
            r)
  unfolding after_store third_source kept
  after_store-Turns store_name (loaded c src) = ret-Turns kept (loaded c src)
  after_store-Turns store_name (refused err) = windows_search-Turns _

  second_source-Turns :
      (store_name : Text)
      → Turns [] kept (
          second_source
            (in_files files)
            (load_from_store api)
            (windows_search api (in_files files))
            store_name)
  unfolding second_source third_source
  second_source-Turns store_name = elim (Bool-cases (text_eq store_name [])) [
    | inl e ↦ rw (second_source, e) (windows_search-Turns _)
    | inr e ↦
        rw (second_source, e)
          (bind-Turns [] kept kept _ _ (load_from_store-Turns api store_name)
            (after_store-Turns store_name))
  ]

  load_certificate-Turns :
      (cert_file key_file store_name : Text)
      → Turns [] kept (
          load_certificate
            (in_files files)
            (load_from_store api)
            (windows_search api (in_files files))
            cert_file
            key_file
            store_name)
  unfolding load_certificate in_files
  load_certificate-Turns cert_file key_file store_name =
      elim (Bool-cases (not (text_eq cert_file []) && not (text_eq key_file []))) [
        | inl e ↦ elim (Bool-cases (files.file_exists cert_file && files.file_exists key_file)) [
          | inl f ↦
              rw (load_certificate, e, f)
                (ret-kept _ (
                  explicit-kept X files cert_file key_file
                    (files.load_key_pair cert_file key_file)))
          | inr f ↦ rw (load_certificate, e, f) (second_source-Turns store_name)
        ]
        | inr e ↦ rw (load_certificate, e) (second_source-Turns store_name)
      ]

  -- On Windows, whatever the calls of the system return: a handle is used and closed only while it is open, and
  -- at the end exactly the handles of the certificate are open, its key and its context; none where the
  -- certificate comes from files or there is an error.
  pub load_certificate-settled :
      (cert_file key_file store_name : Text) (w : W)
      → settle []
          (load_certificate
            (in_files files)
            (load_from_store api)
            (windows_search api (in_files files))
            cert_file
            key_file
            store_name
            w).1
        ≡ some (
            kept
              (load_certificate
                (in_files files)
                (load_from_store api)
                (windows_search api (in_files files))
                cert_file
                key_file
                store_name
                w).2)
  load_certificate-settled cert_file key_file store_name w =
      settled _ kept (load_certificate-Turns cert_file key_file store_name) w
