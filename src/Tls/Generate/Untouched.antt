-- ===== src/Tls/Generate/Untouched.antt =====
-- internal/tlsutil/generate.go: the files that `GenerateSelfSigned` leaves alone.
use limiz.Base.{
  ◌||◌, ◌&&◌, ◌≡◌, refl, ◌∙◌, ℕ, ◌^◌, Text, lookup, Bool, true, false, ltb, codes, length, text_eq,
  arith, Bool-cases, inl, inr,
}
use limiz.Tls.Generate.{
  Bytes, Result, ok, err, Fs, GenerateError, create_directory, generate_key, serial_number,
  create_certificate, create_cert_file, write_certificate, encode_key, create_key_file, write_key,
  Calls, template, Step, follow, ◌>>=◌, ◌>>◌, check, returns, mkdir_all, mkdir, write_pem,
  cert_mode, key_mode, cert_in, key_in, write_pair, generate_self_signed,
}
use limiz.Tls.Generate.Writing.{write_pem-lookup, write_pem-result, follow-ok, follow-err}

-- whether the certificate's file has been opened before an error
unfoldable pub reaches_cert : GenerateError → Bool
reaches_cert create_directory = false
reaches_cert (generate_key e) = false
reaches_cert (serial_number e) = false
reaches_cert (create_certificate e) = false
reaches_cert create_cert_file = false
reaches_cert write_certificate = true
reaches_cert (encode_key e) = true
reaches_cert create_key_file = true
reaches_cert write_key = true

unfoldable pub reaches_key : GenerateError → Bool
reaches_key write_key = true
reaches_key create_directory = false
reaches_key (generate_key e) = false
reaches_key (serial_number e) = false
reaches_key (create_certificate e) = false
reaches_key create_cert_file = false
reaches_key write_certificate = false
reaches_key (encode_key e) = false
reaches_key create_key_file = false

-- the file is one that a run with the result has written to
unfoldable pub touches : {A : Type 0} → Text → Result GenerateError A → Text → Bool
unfolding reaches_cert reaches_key
touches d (ok r) q = text_eq (cert_in d) q || text_eq (key_in d) q
touches d (err e) q =
    (text_eq (cert_in d) q && reaches_cert e) || (text_eq (key_in d) q && reaches_key e)

-- what a run has not written to is as it was
record Kept {A : Type 0} (d q : Text) (base : Fs) (p : Fs × Result GenerateError A) : Type 0 where
  kept : touches d p.1 q ≡ false → lookup q p.0.files ≡ lookup q base.files

module _ (d q : Text) (base : Fs) where
  check-Kept :
      {A B : Type 0} (failed : Text → GenerateError) (r : Result Text A) (f : A → Step B) (fs : Fs)
      → ((e : Text)
          → touches {A = B} d (err (failed e)) q ≡ false
          → lookup q fs.files ≡ lookup q base.files)
      → ((a : A) → Kept d q base (f a fs))
      → Kept d q base ((check failed r >>= f) fs)
  unfolding follow check ◌>>=◌
  check-Kept failed (ok a) f fs h k = k a
  check-Kept failed (err e) f fs h k = record { kept = h e }

  mkdir-Kept :
      {B : Type 0} (f : Unit {0} → Step B)
      → ((fs : Fs) → lookup q fs.files ≡ lookup q base.files → Kept d q base (f tt fs))
      → Kept d q base ((mkdir d >>= f) base)
  unfolding mkdir mkdir_all ◌>>=◌
  mkdir-Kept f k = elim (Bool-cases (base.cannot_make d)) [
    | inl e ↦
        rw (follow-err f (mkdir d base) create_directory (rw (mkdir, e) refl))
          (record { kept = λ n. rw (mkdir, e) refl })
    | inr e ↦
        rw (follow-ok f (mkdir d base) tt (rw (mkdir, e) refl))
          (k (mkdir d base).0 (rw (mkdir, e) refl))
  ]

  write_pem-Kept :
      {B : Type 0} (not_created not_written : GenerateError) (path : Text) (mode : ℕ) (pem : Bytes)
      (f : Unit {0} → Step B) (fs : Fs)
      → (touches {A = B} d (err not_created) q ≡ false → lookup q fs.files ≡ lookup q base.files)
      → (touches {A = B} d (err not_written) q ≡ false → lookup q fs.files ≡ lookup q base.files)
      → (touches {A = B} d (err not_written) q ≡ false → text_eq path q ≡ false)
      → ((fs' : Fs)
          → (text_eq path q ≡ false → lookup q fs'.files ≡ lookup q fs.files)
          → Kept d q base (f tt fs'))
      → Kept d q base ((write_pem not_created not_written path mode pem >>= f) fs)
  unfolding ◌>>=◌
  write_pem-Kept not_created not_written path mode pem f fs hc hw hp k =
      let p = write_pem not_created not_written path mode pem fs in
      let result = write_pem-result not_created not_written path mode pem fs in
      let left = write_pem-lookup not_created not_written path mode pem fs q in
      let outside : text_eq path q ≡ false → lookup q p.0.files ≡ lookup q fs.files =
        λ n. ground (arith, n, left) in
      elim (Bool-cases (fs.is_locked path)) [
        | inl e ↦
            rw (follow-err f p not_created (result ∙ rw e refl))
              (record { kept = λ n. left ∙ rw e (hc n) })
        | inr e ↦ elim (Bool-cases (ltb (fs.room path) (length pem))) [
          | inl g ↦
              rw (follow-err f p not_written (result ∙ rw (e, g) refl))
                (record { kept = λ n. outside (hp n) ∙ hw n })
          | inr g ↦ rw (follow-ok f p tt (result ∙ rw (e, g) refl)) (k p.0 outside)
        ]
      ]

module _ {K : Type 0} (calls : Calls K) (d q : Text) (base : Fs) where
  write_pair-Kept :
      (cert_der : Bytes) (priv : K) (fs : Fs)
      → lookup q fs.files ≡ lookup q base.files
      → Kept d q base (write_pair calls d cert_der priv fs)
  unfolding write_pair ◌>>◌ touches reaches_cert reaches_key returns
  write_pair-Kept cert_der priv fs h =
      write_pem-Kept d q base create_cert_file write_certificate (cert_in d) cert_mode
        (calls.pem_block (codes "CERTIFICATE") cert_der) _ fs (λ n. h) (λ n. h)
        (λ n. ground (arith, n))
        (λ fs' h'.
          check-Kept d q base encode_key (calls.marshal_key priv) _ fs'
            (λ e n. h' (ground (arith, n)) ∙ h)
            (λ key_bytes.
              write_pem-Kept d q base create_key_file write_key (key_in d) key_mode
                (calls.pem_block (codes "EC PRIVATE KEY") key_bytes) _ fs'
                (λ n. h' (ground (arith, n)) ∙ h) (λ n. h' (ground (arith, n)) ∙ h)
                (λ n. ground (arith, n))
                (λ fs'' h''. record {
                  kept = λ n. h'' (ground (arith, n)) ∙ h' (ground (arith, n)) ∙ h;
                })))

  generate_self_signed-Kept : Kept d q base (generate_self_signed calls d base)
  unfolding generate_self_signed ◌>>◌
  generate_self_signed-Kept = mkdir-Kept d q base _ (λ fs h.
      check-Kept d q base generate_key calls.new_key _ fs (λ e n. h)
        (λ priv.
          check-Kept d q base serial_number (calls.random_int (2 ^ 128)) _ fs (λ e n. h)
            (λ serial.
              check-Kept d q base create_certificate
                (calls.certificate_der (template serial calls.hostname calls.now calls.later) priv)
                _ fs (λ e n. h) (λ cert_der. write_pair-Kept cert_der priv fs h))))

  -- Whatever fails, a file changes only if it is one of the two and the run has come to it: every other file
  -- stays, the certificate where the run ends before it is opened, and the key where it ends before that.
  pub generate_self_signed-touches :
      touches d (generate_self_signed calls d base).1 q ≡ false
      → lookup q (generate_self_signed calls d base).0.files ≡ lookup q base.files
  generate_self_signed-touches = generate_self_signed-Kept.kept
