-- ===== src/Collectors/Verify/Trust.antt =====
-- internal/collectors/plugin_verify.go: the two layers of trust in a plugin.
use limiz.Base.{
  ℕ, Text, List, [], ◌∷◌, true, none, some, Option, text_eq, text_eq→eq, text_eq_refl, text_eq_iff,
  length, get_elem?, zero, suc, ◌≡◌, ◌≢◌, ◌↔◌, refl, arith, Bool-cases, inl, inr, Option-cases,
}
use limiz.Strings.Split.{split}
use limiz.Strings.Trim.{trim_space}
use limiz.Signing.{Bytes, Crypto, Build, public_key_size, signature_size, sig_path}
use limiz.Collectors.Verify.{
  is_listed, is_allowed_plugin, check_signature, check_key, verify_plugin,
}

-- an entry of a comma-separated list is the name, up to spaces around it
pub record IsEntry (name list : Text) : Type 0 where
  pub at : ℕ
  pub entry : Text
  pub found : get_elem? (split b',' list) at ≡ some entry
  pub spelled : trim_space entry ≡ name

-- Both layers: the name is on the list that the build fixed, and the binary that stands at the path
-- carries a signature that the embedded key accepts.
pub record IsTrusted (c : Crypto) (b : Build) (list : Text) (read : Text → Option Bytes)
    (name path : Text) : Type 0 where
  pub listed : list ≢ []
  pub entry : IsEntry name list
  pub embedded : b.embedded_public_key ≢ []
  pub pub_key : Bytes
  pub decoded : c.decode_base64 b.embedded_public_key ≡ some pub_key
  pub key_size : length pub_key ≡ public_key_size
  pub binary : Bytes
  pub binary_read : read path ≡ some binary
  pub sig : Bytes
  pub sig_read : read (sig_path path) ≡ some sig
  pub sig_size : length sig ≡ signature_size
  pub signed : c.verify pub_key (c.sha256 binary) sig ≡ true

abbrev Found : Text → List Text → Type 0
Found name names = (i : ℕ) × (e : Text) × (get_elem? names i ≡ some e) × (trim_space e ≡ name)

pub is_listed_sound :
    (name : Text) (names : List Text) → is_listed name names ≡ true → Found name names
unfolding is_listed
is_listed_sound name [] h = ground arith
is_listed_sound name (a ∷ names) h = elim (Bool-cases (text_eq (trim_space a) name)) [
  | inl e ↦ (0, a, refl, text_eq→eq (trim_space a) name e)
  | inr e ↦
      let (i, x, found, spelled) = is_listed_sound name names (ground arith) in
      (suc i, x, found, spelled)
]

pub is_listed_complete :
    (name : Text) (names : List Text) (i : ℕ) (e : Text)
    → get_elem? names i ≡ some e
    → trim_space e ≡ name
    → is_listed name names ≡ true
unfolding is_listed
is_listed_complete name [] i e h k = ground arith
is_listed_complete name (a ∷ names) zero e h k = ground (arith, text_eq_iff (trim_space a) name)
is_listed_complete name (a ∷ names) (suc i) e h k =
    ground (arith, is_listed_complete name names i e)

pub is_allowed_plugin_sound :
    (b : Build) (name : Text)
    → is_allowed_plugin b name ≡ true
    → (b.allowed_plugins ≢ []) × IsEntry name b.allowed_plugins
unfolding is_allowed_plugin
is_allowed_plugin_sound b name h =
    let (i, x, found, spelled) =
      is_listed_sound name (split b',' b.allowed_plugins) (ground arith) in
    (
      ground (arith, text_eq_refl b.allowed_plugins),
      record { at = i; entry = x; found = found; spelled = spelled },
    )

pub is_allowed_plugin_complete :
    (b : Build) (name : Text)
    → b.allowed_plugins ≢ []
    → IsEntry name b.allowed_plugins
    → is_allowed_plugin b name ≡ true
unfolding is_allowed_plugin
is_allowed_plugin_complete b name n e = ground (
  arith,
  text_eq_iff b.allowed_plugins [],
  is_listed_complete name (split b',' b.allowed_plugins) e.at e.entry,
)

module _ (c : Crypto) (b : Build) (read : Text → Option Bytes) (name path : Text) where
  abbrev Trusted : Type 0
  Trusted = IsTrusted c b b.allowed_plugins read name path

  verify_plugin_complete : Trusted → verify_plugin c b read name path ≡ none
  unfolding verify_plugin check_key check_signature
  verify_plugin_complete t = ground (
    arith,
    is_allowed_plugin_complete b name t.listed t.entry,
    text_eq_iff b.embedded_public_key [],
  )

  -- the three values that the verifier reads on the way to success
  reads :
      verify_plugin c b read name path ≡ none
      → (pub_key : Bytes) × (binary : Bytes) × (sig : Bytes) × (c.decode_base64
            b.embedded_public_key
          ≡ some pub_key)
        × (read path ≡ some binary)
        × (read (sig_path path) ≡ some sig)
  unfolding verify_plugin check_key check_signature
  reads h = elim (Option-cases (c.decode_base64 b.embedded_public_key)) [
    | inl e ↦ absurd (ground arith)
    | inr (k, e) ↦ elim (Option-cases (read path)) [
      | inl e' ↦ absurd (ground arith)
      | inr (d, e') ↦ elim (Option-cases (read (sig_path path))) [
        | inl e'' ↦ absurd (ground arith)
        | inr (s, e'') ↦ (k, d, s, e, e', e'')
      ]
    ]
  ]

  verify_plugin_sound : verify_plugin c b read name path ≡ none → Trusted
  unfolding verify_plugin check_key check_signature
  verify_plugin_sound h =
      let (k, d, s, e, e', e'') = reads h in
      let (listed, entry) = is_allowed_plugin_sound b name (ground arith) in
      record {
        listed = listed;
        entry = entry;
        embedded = ground (arith, text_eq_iff b.embedded_public_key []);
        pub_key = k;
        decoded = e;
        key_size = ground arith;
        binary = d;
        binary_read = e';
        sig = s;
        sig_read = e'';
        sig_size = ground arith;
        signed = ground arith;
      }

  -- `VerifyPlugin` returns no error exactly when the plugin is trusted: its name is, up to spaces, an
  -- entry of the compile-time list, which is not empty, the embedded key decodes to 32 bytes, the
  -- binary and a signature of 64 bytes can be read, and the key accepts the signature on the hash of
  -- that binary.
  pub verify_plugin-eq-none_iff :
      (verify_plugin c b read name path ≡ none) ↔ IsTrusted c b b.allowed_plugins read name path
  verify_plugin-eq-none_iff = (verify_plugin_sound, verify_plugin_complete)
