-- ===== src/Tls/Generate/Stored.antt =====
-- internal/tlsutil/generate.go: the two files where nothing fails.
use limiz.Base.{
  Option, none, ◌≡◌, refl, ap, ◌∙◌, ℕ, ◌^◌, ◌≤◌, Text, lookup, ◌∷◌, Bool, false, some,
  if◌then◌else◌, codes, length, text_eq, text_eq_iff, ne→text_eq, arith,
}
use limiz.Tls.Generate.{
  Bytes, Result, ok, File, Fs, GenerateError, create_cert_file, write_certificate, encode_key,
  create_key_file, write_key, Calls, GenerateResult, template, Step, follow, ◌>>=◌, ◌>>◌, check,
  returns, mkdir_all, truncated, mkdir, write_pem, cert_mode, key_mode, cert_in, key_in, write_pair,
  generate_self_signed,
}
use limiz.Tls.Generate.Writing.{
  replaced, write_pem-lookup, write_pem-result, write_pem-is_locked, write_pem-room,
  write_pem-masked, follow-ok, take-all, cert_in-ne-key_in,
}

-- the calls return what is given, and the two files can be written
pub record IsReady {K : Type 0} (calls : Calls K) (d : Text) (fs : Fs) (priv : K) (serial : ℕ)
    (cert_der key_bytes : Bytes) : Type 0 where
  pub makes : fs.cannot_make d ≡ false
  pub keyed : calls.new_key ≡ ok priv
  pub numbered : calls.random_int (2 ^ 128) ≡ ok serial
  pub certified :
      calls.certificate_der (template serial calls.hostname calls.now calls.later) priv
      ≡ ok cert_der
  pub marshalled : calls.marshal_key priv ≡ ok key_bytes
  pub cert_opens : fs.is_locked (cert_in d) ≡ false
  pub key_opens : fs.is_locked (key_in d) ≡ false
  pub cert_fits : length (calls.pem_block (codes "CERTIFICATE") cert_der) ≤ fs.room (cert_in d)
  pub key_fits : length (calls.pem_block (codes "EC PRIVATE KEY") key_bytes) ≤ fs.room (key_in d)

-- the mode that a file has already, or that of a new file
unfoldable mode_of : ℕ → Option File → ℕ
mode_of new none = new
mode_of new (some f) = f.mode

-- a file with its content
unfoldable pub stored : Fs → Text → ℕ → Bytes → File
unfolding mode_of
stored fs path mode bs = record {
  mode = mode_of (fs.masked mode) (lookup path fs.files);
  content = bs;
}

truncated-mode :
    (new : ℕ) (f : Option File) (bs : Bytes)
    → record (truncated new f) { content = bs } ≡ record { mode = mode_of new f; content = bs }
unfolding truncated mode_of
truncated-mode new none bs = refl
truncated-mode new (some f) bs = refl

module _ (not_created not_written : GenerateError) (path : Text) (mode : ℕ) (pem : Bytes) (fs : Fs)
    (opens : fs.is_locked path ≡ false) (fits : length pem ≤ fs.room path) where
  write_pem-ok : (write_pem not_created not_written path mode pem fs).1 ≡ ok tt
  write_pem-ok =
      ground (arith, opens, fits, write_pem-result not_created not_written path mode pem fs)

  write_pem-stored :
      (q : Text)
      → lookup q (write_pem not_created not_written path mode pem fs).0.files
        ≡ (if text_eq path q then some (stored fs path mode pem) else lookup q fs.files)
  unfolding replaced stored
  write_pem-stored q =
      write_pem-lookup not_created not_written path mode pem fs q
      ∙ rw
          (
            opens,
            replaced,
            stored,
            take-all (fs.room path) pem fits,
            truncated-mode (fs.masked mode) (lookup path fs.files) pem,
          )
          refl

check-ok :
    {A B : Type 0} (failed : Text → GenerateError) (r : Result Text A) (a : A) (f : A → Step B)
    (fs : Fs)
    → r ≡ ok a
    → (check failed r >>= f) fs ≡ f a fs
unfolding check ◌>>=◌ follow
check-ok failed r a f fs h = rw h refl

module _ {K : Type 0} (calls : Calls K) (d : Text) (fs : Fs) (priv : K) (serial : ℕ)
    (cert_der key_bytes : Bytes) (h : IsReady calls d fs priv serial cert_der key_bytes) where
  abbrev result : GenerateResult K
  result = record {
    cert_path = cert_in d;
    key_path = key_in d;
    cert_der = cert_der;
    priv_key = priv;
  }

  abbrev made : Fs
  made = record fs { dirs = d ∷ fs.dirs }

  abbrev certified : Fs × Result GenerateError (Unit {0})
  certified =
      write_pem create_cert_file write_certificate (cert_in d) cert_mode
        (calls.pem_block (codes "CERTIFICATE") cert_der) made

  abbrev keyed : Fs × Result GenerateError (Unit {0})
  keyed =
      write_pem create_key_file write_key (key_in d) key_mode
        (calls.pem_block (codes "EC PRIVATE KEY") key_bytes) certified.0

  mkdir-made : mkdir d fs ≡ (made, ok tt)
  unfolding mkdir mkdir_all
  mkdir-made = rw (mkdir, h.makes) refl

  certified-ok : certified.1 ≡ ok tt
  certified-ok =
      write_pem-ok create_cert_file write_certificate (cert_in d) cert_mode
        (calls.pem_block (codes "CERTIFICATE") cert_der) made h.cert_opens h.cert_fits

  key_opens : certified.0.is_locked (key_in d) ≡ false
  key_opens =
      ap (λ (l : Text → Bool). l (key_in d))
        (write_pem-is_locked create_cert_file write_certificate (cert_in d) cert_mode
          (calls.pem_block (codes "CERTIFICATE") cert_der) made)
      ∙ h.key_opens

  key_fits :
      length (calls.pem_block (codes "EC PRIVATE KEY") key_bytes) ≤ certified.0.room (key_in d)
  key_fits =
      rw
        (write_pem-room create_cert_file write_certificate (cert_in d) cert_mode
          (calls.pem_block (codes "CERTIFICATE") cert_der) made)
        h.key_fits

  keyed-ok : keyed.1 ≡ ok tt
  keyed-ok =
      write_pem-ok create_key_file write_key (key_in d) key_mode
        (calls.pem_block (codes "EC PRIVATE KEY") key_bytes) certified.0 key_opens key_fits

  key_step : Bytes → Step (GenerateResult K)
  key_step bs = do
    write_pem create_key_file write_key (key_in d) key_mode
        (calls.pem_block (codes "EC PRIVATE KEY") bs)
    returns result

  write_pair-keyed : write_pair calls d cert_der priv made ≡ (keyed.0, ok result)
  unfolding write_pair key_step ◌>>=◌ ◌>>◌ returns
  write_pair-keyed =
      follow-ok (λ (_ : Unit {0}). check encode_key (calls.marshal_key priv) >>= key_step) certified
        tt certified-ok
      ∙ check-ok encode_key (calls.marshal_key priv) key_bytes key_step certified.0 h.marshalled
      ∙ follow-ok (λ _. returns result) keyed tt keyed-ok

  generate-write_pair : generate_self_signed calls d fs ≡ write_pair calls d cert_der priv made
  unfolding generate_self_signed ◌>>=◌ ◌>>◌ check follow
  generate-write_pair = rw (mkdir-made, h.keyed, h.numbered, h.certified) refl

  stored-key :
      (bs : Bytes) → stored certified.0 (key_in d) key_mode bs ≡ stored fs (key_in d) key_mode bs
  unfolding stored
  stored-key bs =
      rw
        (
          stored,
          write_pem-masked create_cert_file write_certificate (cert_in d) cert_mode
              (calls.pem_block (codes "CERTIFICATE") cert_der) made,
          write_pem-stored create_cert_file write_certificate (cert_in d) cert_mode
              (calls.pem_block (codes "CERTIFICATE") cert_der) made h.cert_opens h.cert_fits
              (key_in d),
          ne→text_eq (cert_in d) (key_in d) (cert_in-ne-key_in d),
        )
        refl

  lookup-keyed :
      (q : Text)
      → lookup q keyed.0.files ≡ (
          if text_eq (cert_in d) q
          then some
              (stored fs (cert_in d) cert_mode (calls.pem_block (codes "CERTIFICATE") cert_der))
          else if text_eq (key_in d) q
          then some
              (stored fs (key_in d) key_mode (calls.pem_block (codes "EC PRIVATE KEY") key_bytes))
          else lookup q fs.files)
  unfolding stored
  lookup-keyed q = ground (
    arith,
    write_pem-stored create_key_file write_key (key_in d) key_mode
        (calls.pem_block (codes "EC PRIVATE KEY") key_bytes) certified.0 key_opens key_fits q,
    write_pem-stored create_cert_file write_certificate (cert_in d) cert_mode
        (calls.pem_block (codes "CERTIFICATE") cert_der) made h.cert_opens h.cert_fits q,
    stored-key (calls.pem_block (codes "EC PRIVATE KEY") key_bytes),
    text_eq_iff (cert_in d) q,
    text_eq_iff (key_in d) q,
    cert_in-ne-key_in d,
  )

  -- If the directory can be made, the calls return a key, a serial number and a certificate, and the two
  -- files can be opened and have room, then the run succeeds: the two files hold the blocks of the certificate
  -- and of its key, with 0644 and 0600 less the umask or the mode that they had, and no other file has changed.
  pub generate_self_signed-stores :
      (q : Text)
      → ((generate_self_signed calls d fs).1
          ≡ ok (record {
            cert_path = cert_in d;
            key_path = key_in d;
            cert_der = cert_der;
            priv_key = priv;
          }))
        × (lookup q (generate_self_signed calls d fs).0.files ≡ (
            if text_eq (cert_in d) q
            then some
                (stored fs (cert_in d) cert_mode (calls.pem_block (codes "CERTIFICATE") cert_der))
            else if text_eq (key_in d) q
            then some
                (stored fs (key_in d) key_mode (calls.pem_block (codes "EC PRIVATE KEY") key_bytes))
            else lookup q fs.files))
  generate_self_signed-stores q = rw (generate-write_pair, write_pair-keyed) (refl, lookup-keyed q)
