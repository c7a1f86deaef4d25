-- ===== src/SignPlugin/Verified.antt =====
-- cmd/sign-plugin/main.go: `signFile`, and the verifier on the files that it leaves.
use limiz.Base.{
  Text, [], ◌∷◌, true, false, none, some, Option, if◌then◌else◌, text_eq, text_eq_refl, ne→text_eq,
  text_eq→ne, sym, length, insert, lookup-insert, ◌≡◌, ◌≢◌, ◌∙◌, refl, arith, Option-cases, inl,
  inr,
}
use limiz.Signing.{
  Bytes, Crypto, Build, public_key_size, private_key_size, signature_size, sig_path,
}
use limiz.Collectors.Verify.{verify_plugin}
use limiz.Collectors.Verify.Trust.{IsEntry, verify_plugin-eq-none_iff}
use limiz.SignPlugin.{
  SignError, bad_private_key_size, Files, read_file, write_file, sign_data, sign_binary, sign_file,
}

-- `ed25519.Verify` accepts what `ed25519.Sign` returns for the key's pair
abbrev pub IsKeyPair : Crypto → Bytes → Bytes → Type 0
IsKeyPair c pub_key priv = (message : Bytes) → c.verify pub_key message (c.sign priv message) ≡ true

-- `ed25519.Sign` returns 64 bytes
abbrev pub SignsInSize : Crypto → Type 0
SignsInSize c = (priv message : Bytes) → length (c.sign priv message) ≡ signature_size

path-ne-sig_path : (path : Text) → text_eq path (sig_path path) ≡ false
unfolding text_eq
path-ne-sig_path [] = refl
path-ne-sig_path (x ∷ path) = ground (arith, path-ne-sig_path path)

some-ne-none : {x : SignError} (o : Option SignError) → o ≡ some x → o ≢ none
some-ne-none o h k = ground arith

-- what a write leaves in the other files, and in its own
read_file-insert :
    (fs : Files) (k j : Text) (v : Bytes)
    → read_file (record fs { files = insert k v fs.files }) j
      ≡ (if text_eq k j then some v else read_file fs j)
unfolding read_file
read_file-insert fs k j v = lookup-insert k j v fs.files

module _ (c : Crypto) (fs : Files) (key_path path : Text) where
  abbrev Succeeds : Type 0
  Succeeds = (sign_file c fs key_path path).1 ≡ none

  abbrev signature : Bytes → Bytes → Bytes
  signature priv binary = c.sign priv (c.sha256 binary)

  after_signing : Bytes → Bytes → Files
  after_signing priv binary = record fs {
    files = insert (sig_path path) (signature priv binary) fs.files;
  }

  -- what a successful run has read
  inputs :
      Succeeds
      → (priv : Bytes) × (binary : Bytes) × (read_file fs key_path ≡ some priv)
        × (read_file fs path ≡ some binary)
  unfolding sign_file sign_binary
  inputs h = elim (Option-cases (read_file fs key_path)) [
    | inl e ↦ absurd (ground arith)
    | inr (priv, e) ↦ elim (Option-cases (read_file fs path)) [
      | inl e' ↦ absurd (ground arith)
      | inr (binary, e') ↦ (priv, binary, e, e')
    ]
  ]

  -- what it leaves
  sign_file_lem :
      (priv binary : Bytes)
      → read_file fs key_path ≡ some priv
      → read_file fs path ≡ some binary
      → Succeeds
      → (sign_file c fs key_path path).0 ≡ after_signing priv binary
  unfolding sign_file sign_binary sign_data write_file after_signing
  sign_file_lem priv binary e e' h = ground arith

  read_file-path :
      (priv binary : Bytes)
      → read_file fs path ≡ some binary
      → read_file (after_signing priv binary) path ≡ some binary
  unfolding after_signing
  read_file-path priv binary e =
      read_file-insert fs (sig_path path) path (signature priv binary)
      ∙ rw
          (ne→text_eq (sig_path path) path
            (λ q. text_eq→ne path (sig_path path) (path-ne-sig_path path) (sym q)))
          e

  read_file-sig_path :
      (priv binary : Bytes)
      → read_file (after_signing priv binary) (sig_path path) ≡ some (signature priv binary)
  unfolding after_signing
  read_file-sig_path priv binary =
      read_file-insert fs (sig_path path) (sig_path path) (signature priv binary)
      ∙ rw (text_eq_refl (sig_path path)) refl

  -- the files after a successful run
  abbrev signed : Files
  signed = (sign_file c fs key_path path).0

  -- When `signFile` succeeds with the private key whose public key the build embeds, then
  -- `VerifyPlugin` accepts the binary on the files that it leaves, under each name of the build's list:
  -- where ed25519 accepts what it signed and its signatures have 64 bytes.
  pub verify_plugin-sign_file :
      (b : Build) (name : Text) (pub_key priv : Bytes)
      → IsKeyPair c pub_key priv
      → SignsInSize c
      → c.decode_base64 b.embedded_public_key ≡ some pub_key
      → b.embedded_public_key ≢ []
      → length pub_key ≡ public_key_size
      → b.allowed_plugins ≢ []
      → IsEntry name b.allowed_plugins
      → read_file fs key_path ≡ some priv
      → Succeeds
      → verify_plugin c b (read_file signed) name path ≡ none
  verify_plugin-sign_file b name pub_key priv pair size decoded embedded key_size listed entry key
        h =
      let (priv', binary, e, e') = inputs h in
      let same : priv' ≡ priv = cc (e, key) in
      rw (sign_file_lem priv' binary e e' h) (
        (verify_plugin-eq-none_iff c b (read_file (after_signing priv' binary)) name path).1
          (record {
            listed = listed;
            entry = entry;
            embedded = embedded;
            pub_key = pub_key;
            decoded = decoded;
            key_size = key_size;
            binary = binary;
            binary_read = read_file-path priv' binary e';
            sig = signature priv' binary;
            sig_read = read_file-sig_path priv' binary;
            sig_size = size priv' (c.sha256 binary);
            signed = rw same (pair (c.sha256 binary));
          }))

  -- With a private key that has not 64 bytes, `signFile` writes nothing and returns the error on the
  -- size.
  pub sign_file-bad-key :
      (priv : Bytes)
      → read_file fs key_path ≡ some priv
      → length priv ≢ private_key_size
      → sign_file c fs key_path path ≡ (fs, some (bad_private_key_size (length priv)))
  unfolding sign_file
  sign_file-bad-key priv e n = ground arith

  -- A run that fails leaves the files as they are.
  pub sign_file-fails : ¬ Succeeds → (sign_file c fs key_path path).0 ≡ fs
  unfolding sign_file sign_binary sign_data write_file
  sign_file-fails n = ground arith

  -- whatever the outcome, only the signature's file differs
  pub sign_file-untouched :
      (q : Text) → q ≢ sig_path path → read_file (sign_file c fs key_path path).0 q ≡ read_file fs q
  sign_file-untouched q n = elim (Option-cases (sign_file c fs key_path path).1) [
    | inl h ↦
        let (priv, binary, e, e') = inputs h in
        rw (sign_file_lem priv binary e e' h) (
          unfold after_signing in
          read_file-insert fs (sig_path path) q (signature priv binary)
          ∙ rw (ne→text_eq (sig_path path) q (λ x. n (sym x))) refl)
    | inr (x, h) ↦ rw (sign_file-fails (some-ne-none _ h)) refl
  ]
