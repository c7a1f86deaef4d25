-- ===== src/Tls/Windows/Signer.antt =====
-- internal/tlsutil/store_windows.go: `ncryptSigner`, which signs with a key of Windows. `NCryptSignHash` and
-- `asn1.Marshal` are parameters.
use limiz.Base.{
  ◌≡◌, refl, sym, ap, ◌∙◌, ℕ, zero, suc, ◌/◌, ◌<◌, Text, List, [], ◌∷◌, ◌++◌, append-nil, Option,
  none, some, codes, if◌then◌else◌, ltb, ◌==◌, arith, length, take, drop, length-append,
  drop-length-append,
}
use limiz.Tls.Bytes.{set_bytes, zeros}

abbrev pub Bytes : Type 0
Bytes = List ℕ

pub data PublicKey : Type 0 where
  rsa : PublicKey
  ecdsa : PublicKey
  other : PublicKey

pub data SignError : Type 0 where
  empty_digest : SignError
  unsupported_hash : ℕ → SignError
  unsupported_key : SignError
  size_error : ℕ → SignError
  sign_error : ℕ → SignError

pub data Signed : Type 0 where
  signed : Bytes → Signed
  failed : SignError → Signed
  -- an index or a slice out of range
  panicked : Signed

-- `NCryptSignHash`, by the name of the hash algorithm if there is padding. Both calls return a code, 0 for
-- success, and a size; the second one, for a buffer of a size, also the bytes that it writes to the buffer.
pub record NCrypt (W : Type 0) : Type 0 where
  pub sign_size : Option Text → Bytes → W → W × ℕ × ℕ
  pub sign_hash : Option Text → Bytes → ℕ → W → W × ℕ × ℕ × Bytes
  -- `asn1.Marshal` of R and S
  pub marshal : ℕ → ℕ → Bytes

-- `crypto.Hash` by its number
unfoldable pub hash_alg : ℕ → Text
hash_alg h =
    if h == 3
    then codes "SHA1"
    else if h == 5
    then codes "SHA256"
    else if h == 6
    then codes "SHA384"
    else if h == 7
    then codes "SHA512"
    else []

-- a new buffer with bytes written to it
unfoldable pub buffer : ℕ → Bytes → Bytes
unfolding zeros
buffer size written = take size (written ++ zeros size)

module _ {W : Type 0} (api : NCrypt W) where
  -- `sig[:cbResult]` of the buffer
  unfoldable pub result_of : ℕ → (Bytes → Signed) → ℕ → ℕ → Bytes → Signed
  unfolding buffer
  result_of size finish zero cb written =
      if ltb size cb then panicked else finish (take cb (buffer size written))
  result_of size finish (suc r) cb written = failed (sign_error (suc r))

  -- the second call, after the first has returned a size; `&sig[0]` panics where that is 0
  unfoldable pub sign_into : Option Text → Bytes → (Bytes → Signed) → ℕ → ℕ → W → W × Signed
  unfolding result_of
  sign_into alg digest finish (suc r) size w = (w, failed (size_error (suc r)))
  sign_into alg digest finish zero zero w = (w, panicked)
  sign_into alg digest finish zero (suc n) w =
      let (w', r, cb, written) = api.sign_hash alg digest (suc n) w in
      (w', result_of (suc n) finish r cb written)

  -- both calls
  unfoldable pub two_calls : Option Text → Bytes → (Bytes → Signed) → W → W × Signed
  unfolding sign_into
  two_calls alg digest finish w =
      let (w', r, size) = api.sign_size alg digest w in sign_into alg digest finish r size w'

  unfoldable pub with_alg : Bytes → ℕ → Text → W → W × Signed
  unfolding two_calls
  with_alg digest hash [] w = (w, failed (unsupported_hash hash))
  with_alg digest hash (c ∷ name) w = two_calls (some (c ∷ name)) digest signed w

  unfoldable pub sign_rsa_pkcs1 : Bytes → ℕ → W → W × Signed
  unfolding with_alg hash_alg
  sign_rsa_pkcs1 digest hash w = with_alg digest hash (hash_alg hash) w

  -- the halves R and S of the raw signature
  unfoldable pub halves : Bytes → Signed
  halves sig =
      let half = length sig / 2 in
      signed (api.marshal (set_bytes (take half sig)) (set_bytes (drop half sig)))

  unfoldable pub sign_ecdsa : Bytes → W → W × Signed
  unfolding two_calls halves
  sign_ecdsa digest w = two_calls none digest halves w

  unfoldable pub by_key : PublicKey → Bytes → ℕ → W → W × Signed
  unfolding sign_rsa_pkcs1 sign_ecdsa
  by_key rsa digest hash w = sign_rsa_pkcs1 digest hash w
  by_key ecdsa digest hash w = sign_ecdsa digest w
  by_key other digest hash w = (w, failed unsupported_key)

  unfoldable pub sign : PublicKey → Bytes → ℕ → W → W × Signed
  unfolding by_key
  sign pub_key [] hash w = (w, failed empty_digest)
  sign pub_key (b ∷ digest) hash w = by_key pub_key (b ∷ digest) hash w

take-length-append : (xs ys : Bytes) → take (length xs) (xs ++ ys) ≡ xs
take-length-append [] ys = refl
take-length-append (x ∷ xs) ys = rw (take-length-append xs ys) refl

-- What Microsoft documents of a key: the two calls agree on the size of a signature, which is not 0, and the
-- second writes as many bytes.
pub record IsDocumented {W : Type 0} (api : NCrypt W) (alg : Option Text) (digest raw : Bytes)
    (w : W) : Type 0 where
  pub sized : (api.sign_size alg digest w).1 ≡ 0
  pub size : (api.sign_size alg digest w).2 ≡ length raw
  pub not_empty : 0 < length raw
  pub done : (api.sign_hash alg digest (length raw) (api.sign_size alg digest w).0).1 ≡ 0
  pub agreed : (api.sign_hash alg digest (length raw) (api.sign_size alg digest w).0).2 ≡ length raw
  pub written : (api.sign_hash alg digest (length raw) (api.sign_size alg digest w).0).3 ≡ raw

module _ {W : Type 0} (api : NCrypt W) (alg : Option Text) (digest raw : Bytes) (w : W)
    (h : IsDocumented api alg digest raw w) where
  take-buffer : take (length raw) (buffer (length raw) raw) ≡ raw
  unfolding buffer
  take-buffer =
      rw (take-length-append raw (zeros (length raw)))
        (ap (take (length raw)) (sym (append-nil raw)) ∙ take-length-append raw [])

  result_of-raw :
      (finish : Bytes → Signed) → result_of api (length raw) finish 0 (length raw) raw ≡ finish raw
  unfolding result_of
  result_of-raw finish = rw take-buffer (ground arith)

  sign_into-raw :
      (finish : Bytes → Signed) (n : ℕ) (w' : W)
      → 0 < n
      → (api.sign_hash alg digest n w').1 ≡ 0
      → (sign_into api alg digest finish 0 n w').1
        ≡ result_of api n finish 0
            (api.sign_hash alg digest n w').2
            (api.sign_hash alg digest n w').3
  unfolding sign_into
  sign_into-raw finish zero w' pos e = absurd (omega arith)
  sign_into-raw finish (suc n) w' pos e = rw e refl

  two_calls-raw : (finish : Bytes → Signed) → (two_calls api alg digest finish w).1 ≡ finish raw
  unfolding two_calls
  two_calls-raw finish =
      rw (h.sized, h.size)
        (sign_into-raw finish (length raw) (api.sign_size alg digest w).0 h.not_empty h.done
          ∙ rw (h.agreed, h.written) (result_of-raw finish))

module _ (r s : Bytes) (h : length r ≡ length s) where
  half-length : length (r ++ s) / 2 ≡ length r
  half-length = omega (arith, h, length-append r s)

  first-half : take (length (r ++ s) / 2) (r ++ s) ≡ r
  first-half = rw half-length (take-length-append r s)

  second-half : drop (length (r ++ s) / 2) (r ++ s) ≡ s
  second-half = rw half-length (drop-length-append r s)

module _ {W : Type 0} (api : NCrypt W) where
  -- With a key that does what is documented: an ECDSA key's raw signature, R and S of the same length, is
  -- returned as the ASN.1 of the two numbers.
  pub sign-ecdsa :
      (b : ℕ) (digest : Bytes) (hash : ℕ) (r s : Bytes) (w : W)
      → length r ≡ length s
      → IsDocumented api none (b ∷ digest) (r ++ s) w
      → (sign api ecdsa (b ∷ digest) hash w).1 ≡ signed (api.marshal (set_bytes r) (set_bytes s))
  unfolding sign by_key sign_ecdsa halves
  sign-ecdsa b digest hash r s w e h =
      two_calls-raw api none (b ∷ digest) (r ++ s) w h (halves api)
      ∙ rw (first-half r s e, second-half r s e) refl
