-- ===== src/SignPlugin/Keys.antt =====
-- cmd/sign-plugin/main.go: the two files of `generateKeys`.
use limiz.Base.{
  Text, [], ◌∷◌, ◌++◌, Bool, true, false, none, some, text_eq, text_eq_refl, codes, insert,
  lookup-insert, ◌≡◌, ◌∙◌, refl, arith, Bool-cases, inl, inr,
}
use limiz.Signing.{Bytes}
use limiz.SignPlugin.{Files, read_file, write_file, write_pair, generate_keys}

key-ne-pub : (prefix : Text) → text_eq (prefix ++ codes ".pub") (prefix ++ codes ".key") ≡ false
unfolding text_eq
key-ne-pub [] = refl
key-ne-pub (x ∷ prefix) = ground (arith, key-ne-pub prefix)

abbrev key_file : Text → Text
key_file prefix = prefix ++ codes ".key"

abbrev pub_file : Text → Text
pub_file prefix = prefix ++ codes ".pub"

-- the files with both keys
abbrev with_pair : Files → Text → Bytes → Bytes → Files
with_pair fs prefix pub_key priv = record fs {
  files = insert (pub_file prefix) pub_key (insert (key_file prefix) priv fs.files);
}

write_pair_lem :
    (fs : Files) (prefix : Text) (pub_key priv : Bytes)
    → (write_pair fs prefix pub_key priv).1 ≡ none
    → (write_pair fs prefix pub_key priv).0 ≡ with_pair fs prefix pub_key priv
unfolding write_pair write_file
write_pair_lem fs prefix pub_key priv h = elim (Bool-cases (fs.is_readonly (key_file prefix))) [
  | inl e ↦ absurd (ground arith)
  | inr e ↦ ground arith
]

-- When `generateKeys` succeeds, the private key stands in `<prefix>.key` and the public key in
-- `<prefix>.pub`.
pub generate_keys_lem :
    (fs : Files) (prefix : Text) (made : Bool) (pub_key priv : Bytes)
    → (generate_keys fs prefix made (some (pub_key, priv))).1 ≡ none
    → (read_file (generate_keys fs prefix made (some (pub_key, priv))).0 (prefix ++ codes ".key")
        ≡ some priv)
      × (read_file (generate_keys fs prefix made (some (pub_key, priv))).0 (prefix ++ codes ".pub")
          ≡ some pub_key)
unfolding generate_keys write_pair write_file read_file
generate_keys_lem fs prefix false pub_key priv h = ground arith
generate_keys_lem fs prefix true pub_key priv h = rw (write_pair_lem fs prefix pub_key priv h) (
    (
      lookup-insert (pub_file prefix) (key_file prefix) pub_key
            (insert (key_file prefix) priv fs.files)
          ∙ rw (key-ne-pub prefix) (
              lookup-insert (key_file prefix) (key_file prefix) priv fs.files
              ∙ rw (text_eq_refl (key_file prefix)) refl),
      lookup-insert (pub_file prefix) (pub_file prefix) pub_key
            (insert (key_file prefix) priv fs.files)
          ∙ rw (text_eq_refl (pub_file prefix)) refl,
    ))
