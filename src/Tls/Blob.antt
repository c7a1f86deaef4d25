-- ===== src/Tls/Blob.antt =====
-- internal/tlsutil/store_windows.go: `buildECCPrivateBlob`, the key as Windows imports it.
use limiz.Base.{
  ◌≡◌, refl, sym, ◌∙◌, ℕ, ◌<◌, ◌^◌, Text, List, [], ◌∷◌, ◌++◌, Bool, true, ap, append-nil, Option,
  none, some, if◌then◌else◌, not, arith, length, take, drop, length-append, append_assoc, codes,
  drop-length-append,
}
use limiz.Tls.Bytes.{bytes, set_bytes, pad, put_uint32, uint32, pad-bytes}

-- `*ecdsa.PrivateKey`
pub record PrivateKey : Type 0 where
  -- the curve is `elliptic.P256()`
  pub is_p256 : Bool
  pub curve_name : Text
  pub x : ℕ
  pub y : ℕ
  pub d : ℕ

abbrev pub bcrypt_ecdsa_p256_magic : ℕ
bcrypt_ecdsa_p256_magic = 844317509

abbrev pub key_len : ℕ
key_len = 32

pub data Built : Type 0 where
  built : List ℕ → Built
  unsupported : Text → Built
  -- a slice out of range
  panicked : Built

-- the blob of the three padded numbers
unfoldable pub blob : Option (List ℕ) → Option (List ℕ) → Option (List ℕ) → Built
blob none y_pad d_pad = panicked
blob (some x_pad) none d_pad = panicked
blob (some x_pad) (some y_pad) none = panicked
blob (some x_pad) (some y_pad) (some d_pad) =
    built
      (put_uint32 bcrypt_ecdsa_p256_magic ++ (put_uint32 key_len ++ (x_pad ++ (y_pad ++ d_pad))))

unfoldable pub build_ecc_private_blob : PrivateKey → Built
unfolding blob
build_ecc_private_blob key =
    if not key.is_p256
    then unsupported (codes "only P-256 keys are supported, got " ++ key.curve_name)
    else blob (pad key_len (bytes key.x)) (pad key_len (bytes key.y)) (pad key_len (bytes key.d))

-- `key_len` bytes at an offset
unfoldable pub field : ℕ → List ℕ → List ℕ
field offset bs = take key_len (drop offset bs)

-- The blob is what BCRYPT_ECCKEY_BLOB says: 104 bytes, the magic number and the length of a number in the first
-- eight, and then X, Y and D, each of 32 bytes that are read as the number again, leading zeros included.
abbrev pub IsBlobOf : PrivateKey → List ℕ → Type 0
IsBlobOf key bs =
    (length bs ≡ 104)
    × (uint32 (take 4 bs) ≡ bcrypt_ecdsa_p256_magic)
    × (uint32 (take 4 (drop 4 bs)) ≡ key_len)
    × (set_bytes (field 8 bs) ≡ key.x)
    × (set_bytes (field 40 bs) ≡ key.y)
    × (set_bytes (field 72 bs) ≡ key.d)

take-length-append : (n : ℕ) (xs ys : List ℕ) → length xs ≡ n → take n (xs ++ ys) ≡ xs
take-length-append n [] ys h = rw (sym h) refl
take-length-append n (x ∷ xs) ys h =
    rw (sym h) (rw (take-length-append (length xs) xs ys refl) refl)

drop-append : (n : ℕ) (xs ys : List ℕ) → length xs ≡ n → drop n (xs ++ ys) ≡ ys
drop-append n xs ys h = rw (sym h) (drop-length-append xs ys)

module _ (xs ys ds : List ℕ) (hx : length xs ≡ key_len) (hy : length ys ≡ key_len)
    (hd : length ds ≡ key_len) where
  abbrev laid_out : List ℕ
  laid_out = put_uint32 bcrypt_ecdsa_p256_magic ++ (put_uint32 key_len ++ (xs ++ (ys ++ ds)))

  length-laid_out : length laid_out ≡ 104
  unfolding put_uint32
  length-laid_out = omega (arith, hx, hy, hd, length-append xs (ys ++ ds), length-append ys ds)

  field-x : field 8 laid_out ≡ xs
  unfolding put_uint32 field
  field-x = take-length-append key_len xs (ys ++ ds) hx

  field-y : field 40 laid_out ≡ ys
  unfolding put_uint32 field
  field-y =
      ap (take key_len) (drop-append key_len xs (ys ++ ds) hx) ∙ take-length-append key_len ys ds hy

  field-d : field 72 laid_out ≡ ds
  unfolding put_uint32 field
  field-d =
      ap (take key_len) (
        ap (drop 64) (sym (append_assoc xs ys ds))
        ∙ drop-append 64 (xs ++ ys) ds (omega (arith, hx, hy, length-append xs ys)))
      ∙ ap (take key_len) (sym (append-nil ds))
      ∙ take-length-append key_len ds [] hd

  magic : uint32 (take 4 laid_out) ≡ bcrypt_ecdsa_p256_magic
  unfolding put_uint32 uint32
  magic = refl

  key_length : uint32 (take 4 (drop 4 laid_out)) ≡ key_len
  unfolding put_uint32 uint32
  key_length = refl

-- A P-256 key, whose numbers are below 2^256, has a blob of 104 bytes with the magic number and the length, from
-- which its three numbers are read again.
pub build_ecc_private_blob-IsBlobOf :
    (key : PrivateKey)
    → key.is_p256 ≡ true
    → key.x < 256 ^ key_len
    → key.y < 256 ^ key_len
    → key.d < 256 ^ key_len
    → (bs : List ℕ) × (build_ecc_private_blob key ≡ built bs) × IsBlobOf key bs
unfolding build_ecc_private_blob blob
build_ecc_private_blob-IsBlobOf key curve hx hy hd =
    let (xs, ex, lx, vx) = pad-bytes key_len key.x hx in
    let (ys, ey, ly, vy) = pad-bytes key_len key.y hy in
    let (ds, ed, ld, vd) = pad-bytes key_len key.d hd in
    (
      laid_out xs ys ds lx ly ld,
      rw (curve, ex, ey, ed) refl,
      (
        length-laid_out xs ys ds lx ly ld,
        magic xs ys ds lx ly ld,
        key_length xs ys ds lx ly ld,
        ap set_bytes (field-x xs ys ds lx ly ld) ∙ vx,
        ap set_bytes (field-y xs ys ds lx ly ld) ∙ vy,
        ap set_bytes (field-d xs ys ds lx ly ld) ∙ vd,
      ),
    )
