-- ===== src/SignPlugin.antt =====
-- cmd/sign-plugin/main.go: key pairs and the signatures of plugin binaries.
pub mod Verified
pub mod Directory
pub mod Keys
use limiz.Base.{
  ℕ, ◌+◌, suc, Text, Map, List, [], ◌∷◌, ◌++◌, Bool, true, false, not, ◌||◌, none, some, Option,
  if◌then◌else◌, ◌==◌, text_eq, codes, length, lookup, insert,
}
use limiz.Strings.Case.{to_lower}
use limiz.Filepath.{join_path, ext, dir}
use limiz.Signing.{Bytes, Crypto, private_key_size, sig_path}

-- The files by path, and the paths at which the system refuses to write.
pub record Files : Type 0 where
  pub files : Map Bytes
  pub is_readonly : Text → Bool

unfoldable pub read_file : Files → Text → Option Bytes
unfolding lookup text_eq
read_file fs path = lookup path fs.files

-- `os.WriteFile`: none where it fails
unfoldable pub write_file : Files → Text → Bytes → Option Files
unfolding insert text_eq
write_file fs path content =
    if fs.is_readonly path then none else some (record fs { files = insert path content fs.files })

pub data SignError : Type 0 where
  no_private_key : Text → SignError
  bad_private_key_size : ℕ → SignError
  no_binary : Text → SignError
  sig_not_written : Text → SignError
  no_directory : Text → SignError
  no_key_pair : SignError
  private_key_not_written : Text → SignError
  public_key_not_written : Text → SignError

-- the files that are left, and the error or none
abbrev pub Signed : Type 0
Signed = Files × Option SignError

-- The two writes of `generateKeys`, once the pair is drawn. `made` is whether `os.MkdirAll` made the
-- directory, and `pair` the public and the private key of `ed25519.GenerateKey`.
write_pair : Files → Text → Bytes → Bytes → Signed
unfolding write_file
write_pair fs prefix pub_key priv = elim (write_file fs (prefix ++ codes ".key") priv) [
  | none ↦ (fs, some (private_key_not_written (prefix ++ codes ".key")))
  | some fs' ↦ elim (write_file fs' (prefix ++ codes ".pub") pub_key) [
    | none ↦ (fs', some (public_key_not_written (prefix ++ codes ".pub")))
    | some fs'' ↦ (fs'', none)
  ]
]

unfoldable pub generate_keys : Files → Text → Bool → Option (Bytes × Bytes) → Signed
unfolding write_pair dir
generate_keys fs prefix false pair = (fs, some (no_directory (dir prefix)))
generate_keys fs prefix true none = (fs, some no_key_pair)
generate_keys fs prefix true (some (pub_key, priv)) = write_pair fs prefix pub_key priv

module _ (c : Crypto) where
  sign_data : Files → Text → Bytes → Bytes → Signed
  unfolding write_file
  sign_data fs path priv binary =
      elim (write_file fs (sig_path path) (c.sign priv (c.sha256 binary))) [
        | none ↦ (fs, some (sig_not_written (sig_path path)))
        | some fs' ↦ (fs', none)
      ]

  sign_binary : Files → Text → Bytes → Signed
  unfolding sign_data read_file
  sign_binary fs path priv = elim (read_file fs path) [
    | none ↦ (fs, some (no_binary path))
    | some binary ↦ sign_data fs path priv binary
  ]

  unfoldable pub sign_file : Files → Text → Text → Signed
  unfolding sign_binary
  sign_file fs key_path path = elim (read_file fs key_path) [
    | none ↦ (fs, some (no_private_key key_path))
    | some priv ↦
        if not (length priv == private_key_size)
        then (fs, some (bad_private_key_size (length priv)))
        else sign_binary fs path priv
  ]

-- a directory entry
pub record DirEntry : Type 0 where
  pub name : Text
  pub is_dir : Bool

is_one_of : Text → List Text → Bool
unfolding text_eq
is_one_of e [] = false
is_one_of e (x ∷ xs) = text_eq x e || is_one_of e xs

-- `skipExts[ext]`
unfoldable pub is_skipped : Text → Bool
unfolding is_one_of to_lower ext
is_skipped name =
    is_one_of (to_lower (ext name)) (
      codes ".sig" ∷ codes ".json" ∷ codes ".md" ∷ codes ".txt" ∷ codes ".yaml" ∷ codes ".yml" ∷ [])

-- the two counters of `signAll`
pub record Counts : Type 0 where
  pub files : Files
  pub signed : ℕ
  pub skipped : ℕ

-- a file that cannot be signed is reported and passed over
count : Counts → Signed → Counts
count st (fs, some _) = record st { files = fs }
count st (fs, none) = record st { files = fs; signed = st.signed + 1 }

module _ (c : Crypto) where
  -- one round of the loop
  sign_entry : Text → Text → Counts → DirEntry → Counts
  unfolding is_skipped sign_file join_path count
  sign_entry key_path dir st e =
      if e.is_dir
      then st
      else if is_skipped e.name
      then record st { skipped = st.skipped + 1 }
      else count st (sign_file c st.files key_path (join_path dir e.name))

  sign_loop : Text → Text → Counts → List DirEntry → Counts
  unfolding sign_entry
  sign_loop key_path dir st [] = st
  sign_loop key_path dir st (e ∷ es) = sign_loop key_path dir (sign_entry key_path dir st e) es

  -- `entries` is what `os.ReadDir` returned, none where it failed
  unfoldable pub sign_all : Files → Text → Text → Option (List DirEntry) → Counts × Option SignError
  unfolding sign_loop
  sign_all fs key_path dir none =
      (record { files = fs; signed = 0; skipped = 0 }, some (no_directory dir))
  sign_all fs key_path dir (some entries) =
      (sign_loop key_path dir (record { files = fs; signed = 0; skipped = 0 }) entries, none)
