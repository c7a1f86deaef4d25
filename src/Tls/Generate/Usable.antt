-- ===== src/Tls/Generate/Usable.antt =====
-- internal/tlsutil/generate.go: `WritableCertDir` finds the first candidate that can be used.
use limiz.Base.{
  ◌≡◌, refl, sym, ap, ◌∙◌, Text, lookup, insert, lookup-insert, List, [], ◌∷◌, ◌++◌, Bool, true,
  false, not, ◌&&◌, ◌||◌, Option, none, some, if◌then◌else◌, text_eq, text_eq_iff, text_eq_refl,
  arith, Bool-cases, inl, inr, take,
}
use limiz.Disk.{lookup-delete}
use limiz.Tls.Generate.{File, Fs, mkdir_all, truncated, open_truncated, write_file, key_mode}
use limiz.Tls.Generate.Directories.{
  default_cert_dirs, is_seen, unique, test_file, removed, try_dir, found_or, first_writable,
  writable_cert_dir,
}

-- a directory that can be made, and a file in it that can be written
unfoldable pub is_usable : Fs → Text → Bool
unfolding test_file
is_usable fs d = not (fs.cannot_make d) && not (fs.is_locked (test_file d))

-- the first of the candidates that is one, repeated or not
unfoldable pub first_usable : Fs → List Text → Option Text
first_usable fs [] = none
first_usable fs (d ∷ ds) =
    if not (text_eq d []) && is_usable fs d then some d else first_usable fs ds

-- what becomes of a file: only the test file of the directory that was found is gone
unfoldable pub left : Fs → Text → Option Text → Option File
left fs q none = lookup q fs.files
left fs q (some d) = if text_eq (test_file d) q then none else lookup q fs.files

module _ (fs : Fs) where
  unique-first :
      (seen ds : List Text)
      → ((x : Text) → is_seen x seen ≡ true → is_usable fs x ≡ false)
      → first_usable fs (unique seen ds) ≡ first_usable fs ds
  unfolding unique first_usable is_seen
  unique-first seen [] h = refl
  unique-first seen (d ∷ ds) h = elim (Bool-cases (text_eq d [] || is_seen d seen)) [
    | inl e ↦ rw e (unique-first seen ds h ∙ ground (arith, e, h d))
    | inr e ↦ elim (Bool-cases (is_usable fs d)) [
      | inl g ↦ rw e (ground (arith, e, g))
      | inr g ↦
          let seen_more : (x : Text) → is_seen x (d ∷ seen) ≡ true → is_usable fs x ≡ false =
            λ x k. ground (arith, k, g, h x, text_eq_iff d x) in
          rw (e, first_usable, g) (ground (arith, g, unique-first (d ∷ seen) ds seen_more))
    ]
  ]

-- no empty directory among them
unfoldable NoEmpty : List Text → Type 0
NoEmpty [] = Unit
NoEmpty (d ∷ ds) = (text_eq d [] ≡ false) × NoEmpty ds

unique-NoEmpty : (seen ds : List Text) → NoEmpty (unique seen ds)
unfolding NoEmpty unique
unique-NoEmpty seen [] = tt
unique-NoEmpty seen (d ∷ ds) = elim (Bool-cases (text_eq d [] || is_seen d seen)) [
  | inl e ↦ rw e (unique-NoEmpty seen ds)
  | inr e ↦ rw e (ground (arith, e), unique-NoEmpty (d ∷ seen) ds)
]

module _ (d : Text) (fs : Fs) where
  try_dir-result : (try_dir d fs).1 ≡ is_usable fs d
  unfolding try_dir is_usable mkdir_all open_truncated
  try_dir-result = ground arith

  try_dir-cannot_make : (try_dir d fs).0.cannot_make ≡ fs.cannot_make
  unfolding try_dir mkdir_all open_truncated write_file removed
  try_dir-cannot_make = ground arith

  try_dir-is_locked : (try_dir d fs).0.is_locked ≡ fs.is_locked
  unfolding try_dir mkdir_all open_truncated write_file removed
  try_dir-is_locked = ground arith

  try_dir-lookup :
      (q : Text)
      → lookup q (try_dir d fs).0.files
        ≡ (if is_usable fs d && text_eq (test_file d) q then none else lookup q fs.files)
  unfolding try_dir is_usable mkdir_all open_truncated write_file removed
  try_dir-lookup q =
      let t = test_file d in
      let f = truncated (fs.masked key_mode) (lookup t fs.files) in
      let opened = insert t f fs.files in
      let g = record f { content = take (fs.room t) [] } in
      ground (
        arith,
        text_eq_refl t,
        lookup-insert t t f fs.files,
        lookup-insert t q f fs.files,
        lookup-insert t q g opened,
        lookup-delete t q (insert t g opened),
      )

  try_dir-first : (ds : List Text) → first_usable (try_dir d fs).0 ds ≡ first_usable fs ds
  unfolding first_usable is_usable
  try_dir-first [] = refl
  try_dir-first (x ∷ ds) =
      rw (try_dir-first ds, is_usable, try_dir-cannot_make, try_dir-is_locked) refl

module _ (d : Text) (next : Fs → Fs × Option Text) where
  found_or-true : (p : Fs × Bool) → p.1 ≡ true → found_or d next p ≡ (p.0, some d)
  unfolding found_or
  found_or-true (fs, true) h = refl
  found_or-true (fs, false) h = ground (arith, h)

  found_or-false : (p : Fs × Bool) → p.1 ≡ false → found_or d next p ≡ next p.0
  unfolding found_or
  found_or-false (fs, true) h = ground (arith, h)
  found_or-false (fs, false) h = refl

left-lookup :
    (fs fs' : Fs) (q : Text) (o : Option Text)
    → lookup q fs'.files ≡ lookup q fs.files
    → left fs' q o ≡ left fs q o
unfolding left
left-lookup fs fs' q none h = h
left-lookup fs fs' q (some d) h = rw h refl

first_writable-lem :
    (ds : List Text) (fs : Fs)
    → NoEmpty ds
    → ((first_writable ds fs).1 ≡ first_usable fs ds)
      × ((q : Text) → lookup q (first_writable ds fs).0.files ≡ left fs q (first_usable fs ds))
unfolding first_writable first_usable NoEmpty left
first_writable-lem [] fs h = (refl, λ q. refl)
first_writable-lem (d ∷ ds) fs h = elim (Bool-cases (is_usable fs d)) [
  | inl g ↦
      rw (found_or-true d (first_writable ds) (try_dir d fs) (try_dir-result d fs ∙ g), h.0, g)
        (refl, λ q. try_dir-lookup d fs q ∙ rw g refl)
  | inr g ↦
      let tried = (try_dir d fs).0 in
      let ih = first_writable-lem ds tried h.1 in
      rw (found_or-false d (first_writable ds) (try_dir d fs) (try_dir-result d fs ∙ g), h.0, g)
        (
          ih.0 ∙ try_dir-first d fs ds,
          λ q.
              ih.1 q
              ∙ ap (left tried q) (try_dir-first d fs ds)
              ∙ left-lookup fs tried q (first_usable fs ds) (try_dir-lookup d fs q ∙ rw g refl),
        )
]

-- The result is the first candidate, of the default directories and then the extra ones, that is not empty, can
-- be made and has a test file that can be written; there is none if no candidate is so. No file has changed but
-- the test file of that directory, which is gone.
pub writable_cert_dir-first :
    (exe : Option Text) (extra_dirs : List Text) (fs : Fs)
    → ((writable_cert_dir exe extra_dirs fs).1
        ≡ first_usable fs (default_cert_dirs exe ++ extra_dirs))
      × ((q : Text)
          → lookup q (writable_cert_dir exe extra_dirs fs).0.files
            ≡ left fs q (first_usable fs (default_cert_dirs exe ++ extra_dirs)))
unfolding writable_cert_dir is_seen
writable_cert_dir-first exe extra_dirs fs =
    let ds = default_cert_dirs exe ++ extra_dirs in
    rw (sym (unique-first fs [] ds (λ x k. ground (arith, k))))
      (first_writable-lem (unique [] ds) fs (unique-NoEmpty [] ds))
