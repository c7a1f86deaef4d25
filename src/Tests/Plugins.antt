-- ===== src/Tests/Plugins.antt =====
-- The plugin verifiers, the plugin collector and sign-plugin at concrete inputs.
use limiz.Base.{
  ℕ, zero, suc, ◌+◌, Text, List, [], ◌∷◌, true, false, none, some, Option, pos, codes, lookup,
  insert, text_eq, text_eq_refl, text_eq→ne, ◌≡◌, ◌≢◌, ◌*◌, refl, ◌↔◌, if◌then◌else◌,
}
use limiz.Strings.Trim.{trim_space}
use limiz.Strings.Case.{to_lower, contains_either}
use limiz.Strings.Split.{split}
use limiz.Filepath.{join_path, ext}
use limiz.Time.Duration.{parse_duration, second}
use limiz.Signing.{Bytes, Crypto, Build, bad_signature}
use limiz.Plugins.{Host, runs, success}
use limiz.Collectors.Verify.{is_allowed_plugin, verify_plugin}
use limiz.Collectors.Verify.Trust.{IsEntry, IsTrusted, verify_plugin-eq-none_iff}
use limiz.Collectors.Plugin.{
  ExecPlugin, PluginItem, PluginsConfig, new_exec_plugin, resolve_binary, collect,
}
use limiz.Collectors.Plugin.Gate.{collect-not-IsTrusted}
use limiz.Collectors.Plugin.Timeout.{IsUsable}
use limiz.SignPlugin.{Files, read_file, sign_file, DirEntry, is_skipped}
use limiz.SignPlugin.Verified.{IsKeyPair, SignsInSize, verify_plugin-sign_file}
use limiz.SignPlugin.Directory.{count_skipped}
use limiz.Tests.Numbers.{naturals}

abbrev pub times : ℕ → ℕ → Bytes
times zero x = []
times (suc n) x = x ∷ times n x

abbrev pub first : Bytes → ℕ
first [] = 0
first (x ∷ xs) = x

-- a signature of 64 equal bytes, which depends on the key and on the message
abbrev pub toy : Crypto
toy = record {
  decode_base64 = λ s. some (times 32 7);
  sha256 = λ m. m;
  verify = λ k m s. text_eq s (times 64 (first k + first m));
  sign = λ k m. times 64 (first k + first m);
}

abbrev pub build : Build
build = record {
  embedded_public_key = codes "BwcH";
  allowed_plugins = codes "gpu-info, dir-size";
  allowed_data_plugins = codes "disks";
}

abbrev priv : Bytes
priv = times 64 7

abbrev pub binary_path : Text
binary_path = codes "plugins/dir-size"

abbrev files : Files
files = record {
  files = (codes "k.key", priv) ∷ (binary_path, 1 ∷ 2 ∷ []) ∷ [];
  is_readonly = λ p. false;
}

toy-IsKeyPair : IsKeyPair toy (times 32 7) priv
toy-IsKeyPair m = text_eq_refl (times 64 (7 + first m))

toy-SignsInSize : SignsInSize toy
toy-SignsInSize k m = refl

dir_size-IsEntry : IsEntry (codes "dir-size") build.allowed_plugins
dir_size-IsEntry =
    unfold split trim_space in
    record { at = 1; entry = codes " dir-size"; found = refl; spelled = refl }

listed : build.allowed_plugins ≢ []
listed = text_eq→ne build.allowed_plugins [] (unfold text_eq in refl)

embedded : build.embedded_public_key ≢ []
embedded = text_eq→ne build.embedded_public_key [] (unfold text_eq in refl)

signs : (sign_file toy files (codes "k.key") binary_path).1 ≡ none
unfolding sign_file read_file lookup text_eq insert
signs = refl

reads_key : read_file files (codes "k.key") ≡ some priv
unfolding read_file lookup text_eq
reads_key = refl

verify_plugin-sign_file_example :
    verify_plugin toy build
      (read_file (sign_file toy files (codes "k.key") binary_path).0)
      (codes "dir-size")
      binary_path
    ≡ none
verify_plugin-sign_file_example =
    verify_plugin-sign_file toy files (codes "k.key") binary_path build (codes "dir-size")
      (times 32 7) priv toy-IsKeyPair toy-SignsInSize refl embedded refl listed dir_size-IsEntry
      reads_key signs

-- a binary that has changed since it was signed
changed :
    verify_plugin toy build
      (λ p. if text_eq p binary_path then some (9 ∷ []) else some (times 64 8))
      (codes "dir-size")
      binary_path
    ≡ some (bad_signature (codes "dir-size"))
unfolding verify_plugin split trim_space text_eq is_allowed_plugin
changed = refl

verify_plugin-eq-none_iff_example :
    (verify_plugin toy build (read_file files) (codes "dir-size") binary_path ≡ none)
    ↔ IsTrusted toy build build.allowed_plugins (read_file files) (codes "dir-size") binary_path
verify_plugin-eq-none_iff_example =
    verify_plugin-eq-none_iff toy build (read_file files) (codes "dir-size") binary_path

abbrev entries : List DirEntry
entries =
    record { name = codes "dir-size"; is_dir = false }
    ∷ record { name = codes "README.MD"; is_dir = false }
    ∷ record { name = codes "old"; is_dir = true }
    ∷ []

skips_one : count_skipped entries ≡ 1
unfolding count_skipped is_skipped to_lower ext text_eq
skips_one = refl

-- the plugin directory holds the binary and its signature, and a run prints one sample
abbrev pub signed_files : Text → Option Bytes
signed_files p = if text_eq p binary_path then some (9 ∷ []) else some (times 64 16)

abbrev host : Host ℕ
host = record {
  is_windows = false;
  read_file = λ w. signed_files;
  run =
      λ w path args t. (suc w, record { outcome = success; stdout = codes "size 7"; stderr = [] });
}

abbrev item : PluginItem
item = record {
  name = codes "dir-size";
  exec = codes "dir-size";
  args = codes "/var" ∷ [];
  timeout = codes "2s";
  enabled = true;
}

abbrev config : PluginsConfig
config = record { enabled = true; dir = codes "plugins"; default_timeout = []; items = item ∷ [] }

abbrev plugin : ExecPlugin
plugin = record { item = item; cfg = config; log_sec_done = false }

new_plugin : new_exec_plugin item config ≡ plugin
unfolding new_exec_plugin
new_plugin = refl

path_in_dir : resolve_binary false plugin ≡ binary_path
unfolding resolve_binary join_path contains_either to_lower
path_in_dir = refl

usable : IsUsable (codes "2s") (pos (2 * second))
usable = record { parsed = unfold parse_duration in refl; positive = refl }

trusted :
    IsTrusted toy build build.allowed_plugins signed_files
      (codes "dir-size")
      (resolve_binary false plugin)
trusted = rw path_in_dir (
    (verify_plugin-eq-none_iff toy build signed_files (codes "dir-size") binary_path).0
      (unfold verify_plugin is_allowed_plugin split trim_space text_eq in refl))

-- a build without plugins
abbrev closed : Build
closed = record build { allowed_plugins = [] }

distrusted : ¬ IsTrusted toy closed [] signed_files (codes "dir-size") (resolve_binary false plugin)
distrusted t = t.listed refl

collect-not-IsTrusted_example :
    (runs (collect naturals toy closed host plugin 0).events ≡ [])
    × ((collect naturals toy closed host plugin 0).world ≡ 0)
    × ((collect naturals toy closed host plugin 0).metrics ≡ [])
collect-not-IsTrusted_example = collect-not-IsTrusted naturals toy closed host plugin 0 distrusted
