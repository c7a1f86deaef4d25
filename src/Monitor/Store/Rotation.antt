-- ===== src/Monitor/Store/Rotation.antt =====
-- internal/monitor/store.go: a write on the day of the store, and on a new day.
use limiz.Base.{
  suc, ◌+◌, ◌≤◌, Text, List, [], ◌∷◌, ◌++◌, Bool, true, false, none, some, text_eq, text_eq_refl,
  ne→text_eq, text_eq→ne, length, length-append, length-drop, lookup, insert, lookup-insert, ap,
  ◌≡◌, ◌≢◌, ◌∙◌, refl, sym, arith, Bool-cases, Option-cases, inl, inr, ◌⊎◌,
}
use mathlib.Core.List.{reverse, reverse_aux}
use limiz.Strings.Affix.{trim_prefix, trim_suffix}
use limiz.Filepath.{ext}
use limiz.Disk.{Disk, open_append, append_line, rename, delete, lookup-delete}
use limiz.Monitor.Record.{Record, Item, entry}
use limiz.Monitor.Store.{
  Store, stem, rotated_name, clean_old, open_file, rename_away, rotate_locked, encode, next_day,
  write,
}
use limiz.Monitor.Store.Retention.{clean_old-none, clean_old-or-none, clean_old-is_locked}

module _ {F : Type 0} (is_finite : F → Bool) (r : Record F)
    (finite : is_finite r.duration_ms ≡ true) where
  -- On the day of the store, a write appends the record to the open file and changes nothing else.
  pub write-same-day :
      (s : Store) (disk : Disk (Item F)) (lines : List (Item F))
      → s.is_open ≡ true
      → lookup s.path disk.files ≡ some lines
      → write is_finite s.day_tag r (s, disk)
        ≡ (s, record disk { files = insert s.path (lines ++ entry r ∷ []) disk.files })
  unfolding write next_day encode append_line
  write-same-day s disk lines o h = rw (text_eq_refl s.day_tag, o, finite, h) refl

length-reverse_aux {ℓ} :
    {A : Type ℓ} (xs ys : List A) → length (reverse_aux xs ys) ≡ length xs + length ys
length-reverse_aux [] ys = omega arith
length-reverse_aux (x ∷ xs) ys = omega (arith, length-reverse_aux xs (x ∷ ys))

length-reverse {ℓ} : {A : Type ℓ} (xs : List A) → length (reverse xs) ≡ length xs
length-reverse xs = omega (arith, length-reverse_aux xs [])

length-trim_prefix : (p s : Text) → length s ≤ length (trim_prefix p s) + length p
unfolding trim_prefix
length-trim_prefix p s = ground (arith, length-drop (length p) s)

length-trim_suffix : (p s : Text) → length s ≤ length (trim_suffix p s) + length p
unfolding trim_suffix
length-trim_suffix p s = omega (
  arith,
  length-reverse s,
  length-reverse p,
  length-reverse (trim_prefix (reverse p) (reverse s)),
  length-trim_prefix (reverse p) (reverse s),
)

length-parts : (a t e : Text) → length (a ++ b'-' ∷ t ++ e) ≡ length a + suc (length t + length e)
length-parts [] t e = omega (arith, length-append t e)
length-parts (x ∷ a) t e = omega (arith, length-parts a t e)

-- a rotated file is not the log itself, since its name is longer
rotated_name-ne-path : (path day_tag : Text) → text_eq (rotated_name path day_tag) path ≡ false
rotated_name-ne-path path day_tag =
    ne→text_eq (rotated_name path day_tag) path
      (λ h. omega (arith, ap length h, longer path day_tag, length-trim_suffix (ext path) path))
  where
    longer :
        (path day_tag : Text)
        → length (rotated_name path day_tag)
          ≡ length (trim_suffix (ext path) path) + suc (length day_tag + length (ext path))
    longer path day_tag =
        unfold rotated_name stem in length-parts (trim_suffix (ext path) path) day_tag (ext path)

module _ {F : Type 0} where
  -- the files right after the renaming
  abbrev renamed : Store → List (Item F) → Disk (Item F) → Disk (Item F)
  renamed s lines disk = record disk {
    files = insert (rotated_name s.path s.day_tag) lines (delete s.path disk.files);
  }

  rename_away-eq-renamed :
      (s : Store) (disk : Disk (Item F)) (lines : List (Item F))
      → lookup s.path disk.files ≡ some lines
      → disk.is_locked (rotated_name s.path s.day_tag) ≡ false
      → rename_away s disk ≡ renamed s lines disk
  unfolding rename_away rename
  rename_away-eq-renamed s disk lines h u = rw (rename_away, rename, u, h) refl

  renamed-path :
      (s : Store) (disk : Disk (Item F)) (lines : List (Item F))
      → lookup s.path (renamed s lines disk).files ≡ none
  renamed-path s disk lines =
      lookup-insert (rotated_name s.path s.day_tag) s.path lines (delete s.path disk.files)
      ∙ rw (rotated_name-ne-path s.path s.day_tag)
          (lookup-delete s.path s.path disk.files ∙ rw (text_eq_refl s.path) refl)

  -- opening a file that is not there
  open_file-new :
      (s : Store) (disk : Disk (Item F))
      → lookup s.path disk.files ≡ none
      → disk.is_locked s.path ≡ false
      → open_file s disk
        ≡ (record s { is_open = true }, record disk { files = insert s.path [] disk.files })
  unfolding open_file open_append
  open_file-new s disk h u = rw (open_file, open_append, u, h) refl

  module _ (s : Store) (disk : Disk (Item F)) (lines : List (Item F)) where
    abbrev rotated : Text
    rotated = rotated_name s.path s.day_tag

    -- the files before the log is opened again
    abbrev cleaned : Disk (Item F)
    cleaned = clean_old s.path (renamed s lines disk)

    rotate_locked-eq :
        lookup s.path disk.files ≡ some lines
        → disk.is_locked rotated ≡ false
        → disk.is_locked s.path ≡ false
        → rotate_locked s disk
          ≡ (record s { is_open = true }, record cleaned { files = insert s.path [] cleaned.files })
    unfolding rotate_locked
    rotate_locked-eq h u v = rw (rename_away-eq-renamed s disk lines h u) (
        open_file-new (record s { is_open = false }) cleaned
          (clean_old-none s.path s.path (renamed s lines disk) (renamed-path s disk lines))
          (rw (clean_old-is_locked s.path (renamed s lines disk)) v))

module _ {F : Type 0} (is_finite : F → Bool) (r : Record F)
    (finite : is_finite r.duration_ms ≡ true) where
  encode-new :
      (s : Store) (disk : Disk (Item F))
      → s.is_open ≡ true
      → lookup s.path disk.files ≡ some []
      → lookup s.path (encode is_finite s r disk).files ≡ some (entry r ∷ [])
  unfolding encode append_line
  encode-new s disk o h =
      rw (encode, o, finite, append_line, h)
        (lookup-insert s.path s.path (entry r ∷ []) disk.files ∙ rw (text_eq_refl s.path) refl)

  encode-is_locked :
      (s : Store) (disk : Disk (Item F)) → (encode is_finite s r disk).is_locked ≡ disk.is_locked
  unfolding encode append_line
  encode-is_locked s disk = elim (Bool-cases s.is_open) [
    | inr o ↦ rw (encode, o) refl
    | inl o ↦ elim (Option-cases (lookup s.path disk.files)) [
      | inl e ↦ rw (encode, o, finite, append_line, e) refl
      | inr (lines, e) ↦ rw (encode, o, finite, append_line, e) refl
    ]
  ]

  encode-elsewhere :
      (s : Store) (disk : Disk (Item F)) (q : Text)
      → text_eq s.path q ≡ false
      → lookup q (encode is_finite s r disk).files ≡ lookup q disk.files
  unfolding encode append_line
  encode-elsewhere s disk q n = elim (Bool-cases s.is_open) [
    | inr o ↦ rw (encode, o) refl
    | inl o ↦ elim (Option-cases (lookup s.path disk.files)) [
      | inl e ↦ rw (encode, o, finite, append_line, e) refl
      | inr (lines, e) ↦
          rw (encode, o, finite, append_line, e)
            (lookup-insert s.path q (lines ++ entry r ∷ []) disk.files ∙ rw n refl)
    ]
  ]

  module _ (s : Store) (disk : Disk (Item F)) (lines : List (Item F)) (today : Text) where
    abbrev after : Store × Disk (Item F)
    after = write is_finite today r (s, disk)

    -- the store and the files once the log is open again
    abbrev next : Store
    next = record s { is_open = true; day_tag = today }

    abbrev opened : Disk (Item F)
    opened = record (cleaned s disk lines) { files = insert s.path [] (cleaned s disk lines).files }

    abbrev old : Text
    old = rotated_name s.path s.day_tag

    path-ne-old : text_eq s.path old ≡ false
    path-ne-old =
        ne→text_eq s.path old
          (λ h. text_eq→ne old s.path (rotated_name-ne-path s.path s.day_tag) (sym h))

    log-new : lookup s.path (encode is_finite next r opened).files ≡ some (entry r ∷ [])
    log-new = encode-new next opened refl (
        lookup-insert s.path s.path [] (cleaned s disk lines).files ∙ rw (text_eq_refl s.path) refl)

    -- the old lines, before and after the retention
    old-renamed : lookup old (renamed s lines disk).files ≡ some lines
    old-renamed =
        lookup-insert old old lines (delete s.path disk.files) ∙ rw (text_eq_refl old) refl

    old-cleaned :
        lookup old (encode is_finite next r opened).files ≡ lookup old (cleaned s disk lines).files
    old-cleaned =
        encode-elsewhere next opened old path-ne-old
        ∙ (lookup-insert s.path old [] (cleaned s disk lines).files ∙ rw path-ne-old refl)

    old-new :
        (lookup old (encode is_finite next r opened).files ≡ some lines)
        ⊎ (lookup old (encode is_finite next r opened).files ≡ none)
    old-new = elim (clean_old-or-none s.path old (renamed s lines disk)) [
      | inl e ↦ inl (old-cleaned ∙ (e ∙ old-renamed))
      | inr e ↦ inr (old-cleaned ∙ e)
    ]

    write-eq :
        today ≢ s.day_tag
        → lookup s.path disk.files ≡ some lines
        → disk.is_locked old ≡ false
        → disk.is_locked s.path ≡ false
        → after ≡ (next, encode is_finite next r opened)
    unfolding write next_day
    write-eq n h u v =
        rw (write, next_day, ne→text_eq today s.day_tag n, rotate_locked-eq s disk lines h u v) refl

    -- The first write of a new day closes the day: the store is open and has the new day's tag, the log
    -- holds the new record and nothing else, and the lines of the old day stand under its dated name,
    -- unless the retention has removed them at once. The log and the dated name have to be writable.
    pub write-new-day :
        today ≢ s.day_tag
        → lookup s.path disk.files ≡ some lines
        → disk.is_locked (rotated_name s.path s.day_tag) ≡ false
        → disk.is_locked s.path ≡ false
        → (after.0 ≡ record s { is_open = true; day_tag = today })
          × (lookup s.path after.1.files ≡ some (entry r ∷ []))
          × ((lookup (rotated_name s.path s.day_tag) after.1.files ≡ some lines)
              ⊎ (lookup (rotated_name s.path s.day_tag) after.1.files ≡ none))
    write-new-day n h u v = rw (write-eq n h u v) (refl, log-new, old-new)

    locked-new : (encode is_finite next r opened).is_locked ≡ disk.is_locked
    locked-new = encode-is_locked next opened ∙ clean_old-is_locked s.path (renamed s lines disk)

    -- the same, with the files that are left named
    pub write-next_day :
        today ≢ s.day_tag
        → lookup s.path disk.files ≡ some lines
        → disk.is_locked (rotated_name s.path s.day_tag) ≡ false
        → disk.is_locked s.path ≡ false
        → (disk' : Disk (Item F)) × (write is_finite today r (s, disk) ≡ (next, disk'))
          × (lookup s.path disk'.files ≡ some (entry r ∷ []))
          × (disk'.is_locked ≡ disk.is_locked)
    write-next_day n h u v = (encode is_finite next r opened, write-eq n h u v, log-new, locked-new)
