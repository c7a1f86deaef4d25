-- ===== src/Collectors/Verify.antt =====
-- internal/collectors/plugin_verify.go: the allowlist and the signature of a metric plugin.
pub mod Trust
use limiz.Base.{
  ℕ, Text, List, [], ◌∷◌, Bool, true, false, not, none, some, Option, if◌then◌else◌, ◌==◌, text_eq,
  length,
}
use limiz.Strings.Split.{split}
use limiz.Strings.Trim.{trim_space}
use limiz.Signing.{
  Bytes, Crypto, Build, PluginError, public_key_size, signature_size, sig_path, not_allowed,
  no_public_key, bad_public_key, unreadable_binary, no_signature, bad_signature_size, bad_signature,
}

-- the loop over the names of the list
unfoldable pub is_listed : Text → List Text → Bool
unfolding text_eq trim_space
is_listed name [] = false
is_listed name (allowed ∷ rest) =
    if text_eq (trim_space allowed) name then true else is_listed name rest

unfoldable pub is_allowed_plugin : Build → Text → Bool
unfolding is_listed
is_allowed_plugin b name =
    if text_eq b.allowed_plugins [] then false else is_listed name (split b',' b.allowed_plugins)

-- `read` is `os.ReadFile` on the files as they are. The result is the error, and none is `nil`.
module _ (c : Crypto) (b : Build) (read : Text → Option Bytes) where
  -- the last steps, once the public key is decoded
  check_signature : Text → Text → Bytes → Option PluginError
  check_signature name path pub_key = elim (read path) [
    | none ↦ some (unreadable_binary path)
    | some binary ↦ elim (read (sig_path path)) [
      | none ↦ some (no_signature (sig_path path))
      | some sig ↦
          if not (length sig == signature_size)
          then some (bad_signature_size (length sig))
          else if not (c.verify pub_key (c.sha256 binary) sig)
          then some (bad_signature name)
          else none
    ]
  ]

  unfoldable pub check_key : Text → Text → Option PluginError
  unfolding check_signature
  check_key name path = elim (c.decode_base64 b.embedded_public_key) [
    | none ↦ some bad_public_key
    | some pub_key ↦
        if not (length pub_key == public_key_size)
        then some bad_public_key
        else check_signature name path pub_key
  ]

  unfoldable pub verify_plugin : Text → Text → Option PluginError
  unfolding check_key
  verify_plugin name path =
      if not (is_allowed_plugin b name)
      then some (not_allowed name)
      else if text_eq b.embedded_public_key []
      then some no_public_key
      else check_key name path
