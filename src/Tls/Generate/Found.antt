-- ===== src/Tls/Generate/Found.antt =====
-- internal/tlsutil: the certificate that `GenerateSelfSigned` has written, as `LoadCertificate` finds it on a
-- system that is not Windows.
use limiz.Base.{
  ◌≡◌, ◌≢◌, refl, sym, ap, ◌∙◌, ℕ, Text, lookup, List, [], ◌∷◌, ◌++◌, Bool, true, false, ◌&&◌,
  Option, none, some, codes, text_eq, text_eq_refl, ne→text_eq, All,
}
use limiz.Filepath.{join_path}
use limiz.Filepath.Appended.{IsName, join_path-name, lead}
use limiz.Tls.{
  Files, Pair, certificate, invalid, loaded, source, search_paths, load_certificate,
  load_from_store, platform_search, explicit,
}
use limiz.Tls.Sources.{usable, usable_pair, first_of, load_certificate-usable}
use limiz.Tls.Generate.{
  Bytes, Result, ok, err, File, Fs, GenerateError, Calls, cert_mode, key_mode, cert_in, key_in,
  generate_self_signed,
}
use limiz.Tls.Generate.Writing.{cert_in-ne-key_in, server_crt-IsName, server_key-IsName}
use limiz.Tls.Generate.Stored.{IsReady, stored, generate_self_signed-stores}
use limiz.Tls.Generate.Untouched.{touches, generate_self_signed-touches}

unfoldable pub is_there : Option File → Bool
is_there none = false
is_there (some f) = true

-- `tls.LoadX509KeyPair` of two files, by `tls.X509KeyPair` of their contents
unfoldable pub key_pair :
    {C : Type 0} → (Bytes → Bytes → Pair C) → Option File → Option File → Pair C
key_pair x509 none k = invalid (codes "no such file")
key_pair x509 (some c) none = invalid (codes "no such file")
key_pair x509 (some c) (some k) = x509 c.content k.content

-- the store, as `LoadCertificate` sees it
unfoldable pub on_disk : {C : Type 0} → (Bytes → Bytes → Pair C) → Fs → Files C
unfolding is_there key_pair
on_disk x509 fs = record {
  file_exists = λ path. is_there (lookup path fs.files);
  load_key_pair = λ cert key. key_pair x509 (lookup cert fs.files) (lookup key fs.files);
}

module _ {C : Type 0} (x509 : Bytes → Bytes → Pair C) (fs fs' : Fs) where
  -- the search depends on the files of its paths only
  usable-lookup :
      (ps : List (Text × Text))
      → All
          (λ p.
            (lookup p.0 fs'.files ≡ lookup p.0 fs.files)
            × (lookup p.1 fs'.files ≡ lookup p.1 fs.files))
          ps
      → usable (on_disk x509 fs') ps ≡ usable (on_disk x509 fs) ps
  unfolding usable on_disk
  usable-lookup [] h = refl
  usable-lookup ((cert, key) ∷ ps) h = rw (usable, h.0.0, h.0.1, usable-lookup ps h.1) refl

-- neither file of the directory is one of a pair
abbrev pub Elsewhere : Text → Text × Text → Type 0
Elsewhere d p = (cert_in d ≢ p.0) × (key_in d ≢ p.0) × (cert_in d ≢ p.1) × (key_in d ≢ p.1)

touches-other :
    {A : Type 0} (d q : Text) (r : Result GenerateError A)
    → cert_in d ≢ q
    → key_in d ≢ q
    → touches d r q ≡ false
unfolding touches
touches-other d q (ok a) hc hk = rw (ne→text_eq (cert_in d) q hc, ne→text_eq (key_in d) q hk) refl
touches-other d q (err e) hc hk = rw (ne→text_eq (cert_in d) q hc, ne→text_eq (key_in d) q hk) refl

module _ {K C : Type 0} (calls : Calls K) (x509 : Bytes → Bytes → Pair C) (d : Text) (fs : Fs) where
  abbrev after : Fs
  after = (generate_self_signed calls d fs).0

  untouched : (q : Text) → cert_in d ≢ q → key_in d ≢ q → lookup q after.files ≡ lookup q fs.files
  untouched q hc hk =
      generate_self_signed-touches calls d q fs
        (touches-other d q (generate_self_signed calls d fs).1 hc hk)

  pairs-lookup :
      (ps : List (Text × Text))
      → All (Elsewhere d) ps
      → All
          (λ p.
            (lookup p.0 after.files ≡ lookup p.0 fs.files)
            × (lookup p.1 after.files ≡ lookup p.1 fs.files))
          ps
  pairs-lookup [] h = tt
  pairs-lookup (p ∷ ps) h =
      ((untouched p.0 h.0.0 h.0.1, untouched p.1 h.0.2 h.0.3), pairs-lookup ps h.1)

  -- A run in a directory that the search does not read has no effect on it, whatever the outcome: with no files
  -- given, the certificate or the error is the same as before.
  pub generate_self_signed-unfound :
      {E W : Type 0} (store_name : Text) (w : W)
      → All (Elsewhere d) search_paths
      → load_certificate {E = E}
          (on_disk x509 (generate_self_signed calls d fs).0)
          load_from_store
          (platform_search (on_disk x509 (generate_self_signed calls d fs).0))
          []
          []
          store_name
          w
        ≡ load_certificate
            (on_disk x509 fs)
            load_from_store
            (platform_search (on_disk x509 fs))
            []
            []
            store_name
            w
  unfolding text_eq first_of
  generate_self_signed-unfound store_name w h =
      let before = on_disk x509 fs in
      load_certificate-usable (on_disk x509 after) [] [] store_name w
      ∙ ap (λ cs. (w, [], first_of before cs))
          (usable-lookup x509 fs after search_paths (pairs-lookup search_paths h))
      ∙ sym (load_certificate-usable before [] [] store_name w)

append-not_empty : (front name : Text) → name ≢ [] → text_eq (front ++ name) [] ≡ false
unfolding text_eq
append-not_empty [] [] h = absurd (h refl)
append-not_empty [] (c ∷ name) h = refl
append-not_empty (c ∷ front) name h = refl

in-not_empty : (d name : Text) → IsName name → text_eq (join_path d name) [] ≡ false
in-not_empty d name h = rw (join_path-name d name h) (append-not_empty (lead d) name h.not_empty)

module _ {K C : Type 0} (calls : Calls K) (x509 : Bytes → Bytes → Pair C) (d : Text) (fs : Fs)
    (priv : K) (serial : ℕ) (cert_der key_bytes : Bytes) (c : C)
    (h : IsReady calls d fs priv serial cert_der key_bytes)
    (pair : x509
        (calls.pem_block (codes "CERTIFICATE") cert_der)
        (calls.pem_block (codes "EC PRIVATE KEY") key_bytes)
      ≡ certificate c) where
  abbrev written : Files C
  written = on_disk x509 (generate_self_signed calls d fs).0

  cert-there :
      lookup (cert_in d) (generate_self_signed calls d fs).0.files
      ≡ some (stored fs (cert_in d) cert_mode (calls.pem_block (codes "CERTIFICATE") cert_der))
  cert-there =
      (generate_self_signed-stores calls d fs priv serial cert_der key_bytes h (cert_in d)).1
      ∙ rw (text_eq_refl (cert_in d)) refl

  key-there :
      lookup (key_in d) (generate_self_signed calls d fs).0.files
      ≡ some (stored fs (key_in d) key_mode (calls.pem_block (codes "EC PRIVATE KEY") key_bytes))
  key-there =
      (generate_self_signed-stores calls d fs priv serial cert_der key_bytes h (key_in d)).1
      ∙ rw (ne→text_eq (cert_in d) (key_in d) (cert_in-ne-key_in d), text_eq_refl (key_in d)) refl

  both-there : written.file_exists (cert_in d) && written.file_exists (key_in d) ≡ true
  unfolding on_disk is_there
  both-there = rw (cert-there, key-there) refl

  pair-there : written.load_key_pair (cert_in d) (key_in d) ≡ certificate c
  unfolding on_disk key_pair stored
  pair-there = rw (cert-there, key-there) pair

  -- where the paths of the result are given
  load_certificate-given :
      {E W : Type 0} (store_name : Text) (w : W)
      → load_certificate {E = E} written load_from_store
          (platform_search written)
          (cert_in d)
          (key_in d)
          store_name
          w
        ≡ (w, [], loaded c (source (codes "file") (cert_in d) (key_in d)))
  unfolding explicit cert_in key_in
  load_certificate-given store_name w =
      load_certificate-usable written (cert_in d) (key_in d) store_name w
      ∙ rw
          (
            in-not_empty d (codes "server.crt") server_crt-IsName,
            in-not_empty d (codes "server.key") server_key-IsName,
            both-there,
          )
          (ap (λ p. (w, [], explicit written (cert_in d) (key_in d) p)) pair-there)

usable-cons :
    {C : Type 0} (files : Files C) (cert key : Text) (ps : List (Text × Text)) (c : C)
    → (files.file_exists cert && files.file_exists key) ≡ true
    → files.load_key_pair cert key ≡ certificate c
    → usable files ((cert, key) ∷ ps) ≡ (c, source (codes "system path") cert key) ∷ usable files ps
unfolding usable usable_pair
usable-cons files cert key ps c h k = rw (usable, h, k) refl

abbrev pub default_dir : Text
default_dir = codes "/etc/limiz/tls"

cert_in-default : cert_in default_dir ≡ codes "/etc/limiz/tls/server.crt"
unfolding cert_in join_path text_eq
cert_in-default = refl

key_in-default : key_in default_dir ≡ codes "/etc/limiz/tls/server.key"
unfolding key_in join_path text_eq
key_in-default = refl

first_path :
    {C : Type 0} (files : Files C) (c : C)
    → (files.file_exists (cert_in default_dir) && files.file_exists (key_in default_dir)) ≡ true
    → files.load_key_pair (cert_in default_dir) (key_in default_dir) ≡ certificate c
    → first_of files (usable files search_paths)
      ≡ loaded c (source (codes "system path") (cert_in default_dir) (key_in default_dir))
unfolding first_of
first_path files c h k =
    rw
      (usable-cons files (codes "/etc/limiz/tls/server.crt") (codes "/etc/limiz/tls/server.key") _ c
        (rw (sym cert_in-default, sym key_in-default) h)
        (rw (sym cert_in-default, sym key_in-default) k))
      (rw (cert_in-default, key_in-default) refl)

module _ {K C : Type 0} (calls : Calls K) (x509 : Bytes → Bytes → Pair C) (fs : Fs) (priv : K)
    (serial : ℕ) (cert_der key_bytes : Bytes) (c : C) where
  -- If every step of a run in /etc/limiz/tls succeeds, and the blocks of its certificate and its key are a pair
  -- for `tls.X509KeyPair`, then `LoadCertificate` returns this pair, both where the two paths are given and where
  -- no file is given, with the source it names.
  pub generate_self_signed-loads :
      {E W : Type 0} (store_name : Text) (w : W)
      → IsReady calls default_dir fs priv serial cert_der key_bytes
      → x509
          (calls.pem_block (codes "CERTIFICATE") cert_der)
          (calls.pem_block (codes "EC PRIVATE KEY") key_bytes)
        ≡ certificate c
      → (load_certificate {E = E}
            (on_disk x509 (generate_self_signed calls default_dir fs).0)
            load_from_store
            (platform_search (on_disk x509 (generate_self_signed calls default_dir fs).0))
            (cert_in default_dir)
            (key_in default_dir)
            store_name
            w
          ≡ (w, [], loaded c (source (codes "file") (cert_in default_dir) (key_in default_dir))))
        × (load_certificate {E = E}
              (on_disk x509 (generate_self_signed calls default_dir fs).0)
              load_from_store
              (platform_search (on_disk x509 (generate_self_signed calls default_dir fs).0))
              []
              []
              store_name
              w
            ≡ (
              w,
              [],
              loaded c (source (codes "system path") (cert_in default_dir) (key_in default_dir)),
            ))
  unfolding text_eq
  generate_self_signed-loads store_name w h pair =
      let written = on_disk x509 (generate_self_signed calls default_dir fs).0 in
      (
        load_certificate-given calls x509 default_dir fs priv serial cert_der key_bytes c h pair
            store_name w,
        load_certificate-usable written [] [] store_name w
            ∙ ap (λ r. (w, [], r))
                (first_path written c
                  (both-there calls x509 default_dir fs priv serial cert_der key_bytes c h pair)
                  (pair-there calls x509 default_dir fs priv serial cert_der key_bytes c h pair)),
      )
