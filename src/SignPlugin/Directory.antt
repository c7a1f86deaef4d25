-- ===== src/SignPlugin/Directory.antt =====
-- cmd/sign-plugin/main.go: `signAll` and the files of a directory.
use limiz.Base.{
  All, ℕ, ◌+◌, suc, Text, List, [], ◌∷◌, true, false, none, some, if◌then◌else◌, ◌≡◌, ◌≢◌, ◌∙◌,
  refl, arith, Bool-cases, inl, inr,
}
use limiz.Filepath.{join_path}
use limiz.Signing.{Crypto, sig_path}
use limiz.SignPlugin.{
  Files, read_file, DirEntry, is_skipped, Counts, count, Signed, sign_file, sign_entry, sign_loop,
  sign_all,
}
use limiz.SignPlugin.Verified.{sign_file-untouched}

-- the entries that it passes over because of their extension
unfoldable pub count_skipped : List DirEntry → ℕ
count_skipped [] = 0
count_skipped (e ∷ es) =
    if e.is_dir
    then count_skipped es
    else if is_skipped e.name
    then suc (count_skipped es)
    else count_skipped es

-- the paths of the signatures of the other files
unfoldable pub signature_paths : Text → List DirEntry → List Text
signature_paths dir [] = []
signature_paths dir (e ∷ es) =
    if e.is_dir
    then signature_paths dir es
    else if is_skipped e.name
    then signature_paths dir es
    else sig_path (join_path dir e.name) ∷ signature_paths dir es

count-skipped : (st : Counts) (r : Signed) → (count st r).skipped ≡ st.skipped
unfolding count
count-skipped st (fs, some x) = refl
count-skipped st (fs, none) = refl

count-files : (st : Counts) (r : Signed) → (count st r).files ≡ r.0
unfolding count
count-files st (fs, some x) = refl
count-files st (fs, none) = refl

module _ (c : Crypto) (key_path dir : Text) where
  abbrev sign_one : Counts → DirEntry → Counts
  sign_one st e = count st (sign_file c st.files key_path (join_path dir e.name))

  -- a round, by the kind of entry
  entry-dir : (st : Counts) (e : DirEntry) → e.is_dir ≡ true → sign_entry c key_path dir st e ≡ st
  entry-dir st e d = unfold sign_entry in rw (d, sign_entry) refl

  entry-skip :
      (st : Counts) (e : DirEntry)
      → e.is_dir ≡ false
      → is_skipped e.name ≡ true
      → sign_entry c key_path dir st e ≡ record st { skipped = st.skipped + 1 }
  entry-skip st e d k = unfold sign_entry in rw (d, k, sign_entry) refl

  entry-sign :
      (st : Counts) (e : DirEntry)
      → e.is_dir ≡ false
      → is_skipped e.name ≡ false
      → sign_entry c key_path dir st e ≡ sign_one st e
  entry-sign st e d k = unfold sign_entry in rw (d, k, sign_entry) refl

  loop-skipped :
      (st : Counts) (es : List DirEntry)
      → (sign_loop c key_path dir st es).skipped ≡ st.skipped + count_skipped es
  unfolding sign_loop count_skipped
  loop-skipped st [] = omega arith
  loop-skipped st (e ∷ es) = elim (Bool-cases e.is_dir) [
    | inl d ↦ rw (sign_loop, entry-dir st e d, count_skipped, d) (loop-skipped st es)
    | inr d ↦ elim (Bool-cases (is_skipped e.name)) [
      | inl k ↦
          rw (sign_loop, entry-skip st e d k, count_skipped, d, k)
            (omega (arith, loop-skipped (record st { skipped = st.skipped + 1 }) es))
      | inr k ↦
          rw (sign_loop, entry-sign st e d k, count_skipped, d, k)
            (rw (loop-skipped (sign_one st e) es, count-skipped st _) refl)
    ]
  ]

  -- `signAll` reports as skipped the files, no directories, that have one of the skipped extensions.
  pub sign_all-skipped :
      (fs : Files) (es : List DirEntry)
      → (sign_all c fs key_path dir (some es)).0.skipped ≡ count_skipped es
  unfolding sign_all
  sign_all-skipped fs es =
      omega (arith, loop-skipped (record { files = fs; signed = 0; skipped = 0 }) es)

  loop-untouched :
      (q : Text) (st : Counts) (es : List DirEntry)
      → All (λ p. q ≢ p) (signature_paths dir es)
      → read_file (sign_loop c key_path dir st es).files q ≡ read_file st.files q
  unfolding sign_loop signature_paths
  loop-untouched q st [] n = refl
  loop-untouched q st (e ∷ es) n = elim (Bool-cases e.is_dir) [
    | inl d ↦
        rw (sign_loop, entry-dir st e d) (loop-untouched q st es (rw (signature_paths, d) at n))
    | inr d ↦ elim (Bool-cases (is_skipped e.name)) [
      | inl k ↦
          rw (sign_loop, entry-skip st e d k)
            (loop-untouched q (record st { skipped = st.skipped + 1 }) es
              (rw (signature_paths, d, k) at n))
      | inr k ↦
          let n' = rw (signature_paths, d, k) at n in
          rw (sign_loop, entry-sign st e d k)
            (loop-untouched q (sign_one st e) es n'.1
              ∙ rw (count-files st _)
                  (sign_file-untouched c st.files key_path (join_path dir e.name) q n'.0))
    ]
  ]

  -- `signAll` changes no file of the directory or elsewhere but the signatures of the entries that are
  -- no directories and have none of the skipped extensions.
  pub sign_all-untouched :
      (fs : Files) (es : List DirEntry) (q : Text)
      → All (λ p. q ≢ p) (signature_paths dir es)
      → read_file (sign_all c fs key_path dir (some es)).0.files q ≡ read_file fs q
  unfolding sign_all
  sign_all-untouched fs es q n =
      loop-untouched q (record { files = fs; signed = 0; skipped = 0 }) es n
