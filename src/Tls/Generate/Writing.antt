-- ===== src/Tls/Generate/Writing.antt =====
-- internal/tlsutil/generate.go: one file that `GenerateSelfSigned` writes, and the paths of the two.
use limiz.Base.{
  drop, drop-length-append, zero, suc, ◌≡◌, ◌≢◌, refl, sym, ap, ◌∙◌, ℕ, ◌≤◌, Text, lookup, insert,
  lookup-insert, [], ◌∷◌, ◌++◌, some, if◌then◌else◌, ltb, codes, length, take, text_eq,
  text_eq_refl, arith,
}
use limiz.Filepath.Appended.{IsName, join_path-name, lead}
use limiz.Tls.Generate.{
  Bytes, Result, ok, err, File, Fs, GenerateError, Step, follow, truncated, open_truncated,
  write_file, encode_to, write_pem, cert_in, key_in,
}

-- a file that is written whole: it keeps its mode if it is there
unfoldable pub replaced : Fs → Text → ℕ → Bytes → File
unfolding truncated
replaced fs path mode bs = record (truncated (fs.masked mode) (lookup path fs.files)) {
  content = take (fs.room path) bs;
}

module _ (not_created not_written : GenerateError) (path : Text) (mode : ℕ) (pem : Bytes)
    (fs : Fs) where
  pub write_pem-lookup :
      (q : Text)
      → lookup q (write_pem not_created not_written path mode pem fs).0.files ≡ (
          if fs.is_locked path
          then lookup q fs.files
          else if text_eq path q
          then some (replaced fs path mode pem)
          else lookup q fs.files)
  unfolding write_pem open_truncated encode_to write_file replaced truncated
  write_pem-lookup q =
      let f = truncated (fs.masked mode) (lookup path fs.files) in
      let opened = insert path f fs.files in
      ground (
        arith,
        text_eq_refl path,
        lookup-insert path path f fs.files,
        lookup-insert path q f fs.files,
        lookup-insert path q (record f { content = take (fs.room path) pem }) opened,
      )

  pub write_pem-result : (write_pem not_created not_written path mode pem fs).1 ≡ (
      if fs.is_locked path
      then err not_created
      else if ltb (fs.room path) (length pem)
      then err not_written
      else ok tt)
  unfolding write_pem open_truncated encode_to
  write_pem-result = ground arith

  pub write_pem-is_locked :
      (write_pem not_created not_written path mode pem fs).0.is_locked ≡ fs.is_locked
  unfolding write_pem open_truncated encode_to write_file
  write_pem-is_locked = ground arith

  pub write_pem-room : (write_pem not_created not_written path mode pem fs).0.room ≡ fs.room
  unfolding write_pem open_truncated encode_to write_file
  write_pem-room = ground arith

  pub write_pem-masked : (write_pem not_created not_written path mode pem fs).0.masked ≡ fs.masked
  unfolding write_pem open_truncated encode_to write_file
  write_pem-masked = ground arith

module _ {A B : Type 0} (f : A → Step B) where
  pub follow-ok : (p : Fs × Result GenerateError A) (a : A) → p.1 ≡ ok a → follow f p ≡ f a p.0
  unfolding follow
  follow-ok (fs, ok b) a h = ground (arith, h)
  follow-ok (fs, err e) a h = ground (arith, h)

  pub follow-err :
      (p : Fs × Result GenerateError A) (e : GenerateError)
      → p.1 ≡ err e
      → follow f p ≡ (p.0, err e)
  unfolding follow
  follow-err (fs, ok b) e h = ground (arith, h)
  follow-err (fs, err e') e h = ground (arith, h)

pub server_crt-IsName : IsName (codes "server.crt")
server_crt-IsName = record {
  no_slash = ground arith;
  not_empty = λ e. ground (arith, e);
  not_dot = λ e. ground (arith, e);
  not_dots = λ e. ground (arith, e);
}

pub server_key-IsName : IsName (codes "server.key")
server_key-IsName = record {
  no_slash = ground arith;
  not_empty = λ e. ground (arith, e);
  not_dot = λ e. ground (arith, e);
  not_dots = λ e. ground (arith, e);
}

append-cancel : (front s t : Text) → front ++ s ≡ front ++ t → s ≡ t
append-cancel front s t h =
    sym (drop-length-append front s) ∙ ap (drop (length front)) h ∙ drop-length-append front t

-- Both files stand in the directory under different paths.
pub cert_in-ne-key_in : (d : Text) → cert_in d ≢ key_in d
unfolding cert_in key_in
cert_in-ne-key_in d h =
    let e = append-cancel (lead d) (codes "server.crt") (codes "server.key") (
      sym (join_path-name d (codes "server.crt") server_crt-IsName)
      ∙ h
      ∙ join_path-name d (codes "server.key") server_key-IsName) in
    ground (arith, e)

pub take-all : (n : ℕ) (bs : Bytes) → length bs ≤ n → take n bs ≡ bs
take-all zero [] h = refl
take-all zero (b ∷ bs) h = absurd (omega arith)
take-all (suc n) [] h = refl
take-all (suc n) (b ∷ bs) h = rw (take-all n bs (omega arith)) refl
