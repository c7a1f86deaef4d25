-- ===== src/Signing.antt =====
-- internal/signing, and what the two plugin verifiers and cmd/sign-plugin use of Go's `crypto`: the
-- functions are given, and a theorem names the documented law that it needs.
use limiz.Base.{ℕ, List, Text, Bool, Option, codes, ◌++◌}

abbrev pub Bytes : Type 0
Bytes = List ℕ

pub record Crypto : Type 0 where
  -- `base64.StdEncoding.DecodeString`
  pub decode_base64 : Text → Option Bytes
  pub sha256 : Bytes → Bytes
  -- `ed25519.Verify(pub, message, sig)`
  pub verify : Bytes → Bytes → Bytes → Bool
  -- `ed25519.Sign(priv, message)`
  pub sign : Bytes → Bytes → Bytes

-- What `-ldflags` sets when the program is built.
pub record Build : Type 0 where
  pub embedded_public_key : Text
  pub allowed_plugins : Text
  pub allowed_data_plugins : Text

abbrev pub public_key_size : ℕ
public_key_size = 32

abbrev pub private_key_size : ℕ
private_key_size = 64

abbrev pub signature_size : ℕ
signature_size = 64

-- the file in which a binary's signature stands
abbrev pub sig_path : Text → Text
sig_path path = path ++ codes ".sig"

-- The errors of the verifiers, one for each `return fmt.Errorf`.
pub data PluginError : Type 0 where
  not_allowed : Text → PluginError
  no_public_key : PluginError
  bad_public_key : PluginError
  unreadable_binary : Text → PluginError
  no_signature : Text → PluginError
  bad_signature_size : ℕ → PluginError
  bad_signature : Text → PluginError
