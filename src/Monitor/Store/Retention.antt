-- ===== src/Monitor/Store/Retention.antt =====
-- internal/monitor/store.go: the rotated files that `cleanOld` removes.
use limiz.Base.{
  if◌then◌else◌, ◌-◌, min, Text, List, [], ◌∷◌, ◌++◌, false, not, none, some, text_eq, length,
  length-append, ap, take, take-append-drop, length-take, drop, map, leb, count_of, All,
  IsSorted-split, IsOrder, IsOrder-by, SameElements, insertion_sort, insertion_sort-IsSorted,
  insertion_sort-SameElements, length-SameElements, text_less, text_less-IsOrder, ◌≡◌, ◌∙◌, refl,
  arith, Bool-cases, Option-cases, inl, inr, ◌⊎◌, lookup, count_of-append,
}
use limiz.Filepath.{dir, base, ext}
use limiz.Disk.{
  Disk, read_dir, remove_all-lookup, remove_all-is_locked, remove_all-or-none, is_among,
}
use limiz.Monitor.Record.{Item}
use limiz.Monitor.Store.{RotatedFile, expired, earlier, max_days, clean_old, rotated_files, stem}

earlier-IsOrder : IsOrder earlier
unfolding earlier
earlier-IsOrder = IsOrder-by text_less (λ (f : RotatedFile). f.date) text_less-IsOrder

-- the files that are kept: those that the sorted list has after the expired ones
unfoldable pub kept : List RotatedFile → List RotatedFile
unfolding insertion_sort
kept rotated = drop (length (expired rotated)) (insertion_sort earlier rotated)

length-sorted :
    (rotated : List RotatedFile) → length (insertion_sort earlier rotated) ≡ length rotated
length-sorted rotated =
    length-SameElements (insertion_sort earlier rotated) rotated
      (insertion_sort-SameElements earlier rotated)

-- as many files as there are above two
length-expired : (rotated : List RotatedFile) → length (expired rotated) ≡ length rotated - max_days
unfolding expired
length-expired rotated = ground (
  arith,
  length-sorted rotated,
  length-take (length rotated - 2) (insertion_sort earlier rotated),
)

expired-eq-take :
    (rotated : List RotatedFile)
    → expired rotated ≡ take (length rotated - max_days) (insertion_sort earlier rotated)
unfolding expired
expired-eq-take rotated = elim (Bool-cases (leb (length rotated) 2)) [
  | inl e ↦ let z : length rotated - 2 ≡ 0 = ground arith in rw (expired, e, z) refl
  | inr e ↦ rw (expired, e) refl
]

expired-append-kept :
    (rotated : List RotatedFile) → expired rotated ++ kept rotated ≡ insertion_sort earlier rotated
unfolding kept
expired-append-kept rotated =
    rw (length-expired rotated, expired-eq-take rotated)
      (take-append-drop (length rotated - 2) (insertion_sort earlier rotated))

-- what is removed, and what is kept after it
expired_lem :
    (rotated : List RotatedFile)
    → SameElements (expired rotated ++ kept rotated) rotated
      × (length (kept rotated) ≡ min 2 (length rotated))
      × All (λ old. All (λ new. earlier new old ≡ false) (kept rotated)) (expired rotated)
expired_lem rotated = (
  rw (expired-append-kept rotated) (insertion_sort-SameElements earlier rotated),
  omega (
    arith,
    length-append (expired rotated) (kept rotated),
    ap length (expired-append-kept rotated),
    length-sorted rotated,
    length-expired rotated,
  ),
  IsSorted-split earlier (expired rotated) (kept rotated)
      (rw (expired-append-kept rotated) (insertion_sort-IsSorted earlier earlier-IsOrder rotated)),
)

-- the rotated files among the names of the log's directory
abbrev pub found : Text → List Text → List RotatedFile
found path names = rotated_files (dir path) (base (stem path) ++ b'-' ∷ []) (ext path) names

abbrev pub paths : List RotatedFile → List Text
paths fs = map (λ f. f.path) fs

is_among-count :
    (q : Text) (fs : List RotatedFile)
    → is_among q (paths fs) ≡ not (leb (count_of (λ f. text_eq f.path q) fs) 0)
unfolding is_among count_of
is_among-count q [] = refl
is_among-count q (f ∷ fs) = ground (arith, is_among-count q fs)

is_among-expired :
    (q : Text) (rotated : List RotatedFile)
    → is_among q (paths rotated) ≡ false
    → is_among q (paths (expired rotated)) ≡ false
is_among-expired q rotated h = ground (
  arith,
  is_among-count q rotated,
  is_among-count q (expired rotated),
  count_of-append (λ f. text_eq f.path q) (expired rotated) (kept rotated),
  (expired_lem rotated).0 (λ f. text_eq f.path q),
)

expired-by_date :
    (rotated : List RotatedFile)
    → All (λ old. All (λ new. text_less new.date old.date ≡ false) (kept rotated)) (expired rotated)
unfolding earlier
expired-by_date rotated = (expired_lem rotated).2

module _ {F : Type 0} where
  -- Where `cleanOld` can read the directory of the log, the rotated files of the log that it finds there, which
  -- are those named with the log's name, a dash, a date and the log's extension, are split in two: it keeps two of them, or all where there are no more, none with an earlier date than another that it
  -- removes. Afterwards a path has no file if it is that of a file to be removed that the system lets go, and
  -- what it had before otherwise.
  pub clean_old-keeps_newest :
      (path : Text) (names : List Text) (disk : Disk (Item F))
      → read_dir (dir path) disk ≡ some names
      → (gone : List RotatedFile) × (stay : List RotatedFile) × SameElements
          (gone ++ stay)
          (found path names)
        × (length stay ≡ min 2 (length (found path names)))
        × All (λ old. All (λ new. text_less new.date old.date ≡ false) stay) gone
        × ((q : Text)
            → lookup q (clean_old path disk).files ≡ (
                if (if is_among q (paths gone) then not (disk.is_locked q) else false)
                then none
                else lookup q disk.files))
  unfolding clean_old
  clean_old-keeps_newest path names disk h =
      let rotated = found path names in
      let split = expired_lem rotated in
      (
        expired rotated,
        kept rotated,
        split.0,
        split.1,
        expired-by_date rotated,
        λ q. rw (h, clean_old) (remove_all-lookup (paths (expired rotated)) q disk),
      )

  -- `cleanOld` leaves each file as it is that is not one of the rotated files of the log: whose path is
  -- not that of a directory entry with the log's name, a dash, a date and the log's extension.
  pub clean_old-untouched :
      (path q : Text) (names : List Text) (disk : Disk (Item F))
      → read_dir (dir path) disk ≡ some names
      → is_among q (paths (found path names)) ≡ false
      → lookup q (clean_old path disk).files ≡ lookup q disk.files
  unfolding clean_old
  clean_old-untouched path q names disk h n =
      let rotated = found path names in
      rw (h, clean_old)
        (remove_all-lookup (paths (expired rotated)) q disk
          ∙ rw (is_among-expired q rotated n) refl)

  -- removing creates nothing
  pub clean_old-none :
      (path q : Text) (disk : Disk (Item F))
      → lookup q disk.files ≡ none
      → lookup q (clean_old path disk).files ≡ none
  unfolding clean_old
  clean_old-none path q disk h = elim (Option-cases (read_dir (dir path) disk)) [
    | inl e ↦ rw (e, clean_old) h
    | inr (names, e) ↦
        rw (e, clean_old)
          (remove_all-lookup (paths (expired (found path names))) q disk ∙ ground (arith, h))
  ]

  -- a file is as it was, or removed
  pub clean_old-or-none :
      (path q : Text) (disk : Disk (Item F))
      → (lookup q (clean_old path disk).files ≡ lookup q disk.files)
        ⊎ (lookup q (clean_old path disk).files ≡ none)
  unfolding clean_old
  clean_old-or-none path q disk = elim (Option-cases (read_dir (dir path) disk)) [
    | inl e ↦ rw (e, clean_old) (inl refl)
    | inr (names, e) ↦
        rw (e, clean_old) (remove_all-or-none (paths (expired (found path names))) q disk)
  ]

  pub clean_old-is_locked :
      (path : Text) (disk : Disk (Item F)) → (clean_old path disk).is_locked ≡ disk.is_locked
  unfolding clean_old
  clean_old-is_locked path disk = elim (Option-cases (read_dir (dir path) disk)) [
    | inl e ↦ rw (e, clean_old) refl
    | inr (names, e) ↦
        rw (e, clean_old) (remove_all-is_locked (paths (expired (found path names))) disk)
  ]
