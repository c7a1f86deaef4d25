-- ===== src/Monitor/Reader/Complete.antt =====
-- internal/monitor/store.go: `ReadRecords` on a log that can be read.
use limiz.Base.{
  ℕ, ◌<◌, Text, List, [], ◌∷◌, ◌++◌, Bool, false, ◌&&◌, none, some, if◌then◌else◌, text_eq, lookup,
  select, length, append-nil, count_of, count_of-append, count_of-eq-zero, IsSort, IsSorted,
  SameElements, All, ltb_ℤ, arith, ◌∙◌, ℤ, ◌≡◌, refl, Bool-cases, Option-cases, inl, inr,
}
use limiz.Strings.Affix.{has_prefix, has_suffix}
use limiz.Filepath.{join_path, dir, base, ext}
use limiz.Disk.{Disk, read_dir}
use limiz.Monitor.Record.{Record, Item}
use limiz.Monitor.Store.{default_db_path, stem}
use limiz.Monitor.Reader.{
  in_window, missing, loaded, returned, by_time, read_file, before, read_rotated, read_current,
  read_all, read_records,
}
use limiz.Monitor.Reader.Loop.{IsHealthy, records, read_loop-IsHealthy}

module _ {F : Type 0} (since : ℤ) (disk : Disk (Item F)) where
  -- the records of the window in a file; none where there is no file
  unfoldable pub file_records : Text → List (Record F)
  unfolding lookup records select
  file_records path = elim (lookup path disk.files) [
    | none ↦ []
    | some items ↦ select (in_window since) (records items)
  ]

  -- those of the rotated files, in the order of the directory
  unfoldable pub rotated_records : Text → Text → Text → List Text → List (Record F)
  unfolding file_records
  rotated_records d prefix ext [] = []
  rotated_records d prefix ext (name ∷ names) =
      if has_prefix prefix name && has_suffix ext name
      then file_records (join_path d name) ++ rotated_records d prefix ext names
      else rotated_records d prefix ext names

  -- the names of the directory, none where it cannot be read
  unfoldable pub names_of : Text → List Text
  unfolding read_dir dir
  names_of path = elim (read_dir (dir path) disk) [ none ↦ [] | some names ↦ names ]

  unfoldable pub log_records : Text → List (Record F)
  unfolding rotated_records file_records names_of
  log_records path =
      rotated_records (dir path) (base (stem path) ++ b'-' ∷ []) (ext path) (names_of path)
      ++ file_records path

  -- a record from before the window
  abbrev is_early : Record F → Bool
  is_early r = ltb_ℤ r.timestamp since

  select-early : (rs : List (Record F)) → count_of is_early (select (in_window since) rs) ≡ 0
  unfolding count_of select
  select-early [] = refl
  select-early (r ∷ rs) = ground (arith, select-early rs)

  file_records-early : (path : Text) → count_of is_early (file_records path) ≡ 0
  unfolding file_records
  file_records-early path = elim (Option-cases (lookup path disk.files)) [
    | inl e ↦ rw (file_records, e) (unfold count_of in refl)
    | inr (items, e) ↦ rw (file_records, e) (select-early (records items))
  ]

  rotated_records-early :
      (d prefix ext : Text) (names : List Text)
      → count_of is_early (rotated_records d prefix ext names) ≡ 0
  unfolding rotated_records
  rotated_records-early d prefix ext [] = unfold count_of in refl
  rotated_records-early d prefix ext (name ∷ names) = ground (
    arith,
    count_of-append is_early (file_records (join_path d name)) (rotated_records d prefix ext names),
    file_records-early (join_path d name),
    rotated_records-early d prefix ext names,
  )

  log_records-early : (path : Text) → count_of is_early (log_records path) ≡ 0
  unfolding log_records
  log_records-early path =
      let prefix = base (stem path) ++ b'-' ∷ [] in
      let rotated = rotated_records (dir path) prefix (ext path) (names_of path) in
      omega (
        arith,
        count_of-append is_early rotated (file_records path),
        rotated_records-early (dir path) prefix (ext path) (names_of path),
        file_records-early path,
      )

abbrev pub path_of : Text → Text
path_of given = if text_eq given [] then default_db_path else given

module _ {F : Type 0} (sort : List (Record F) → List (Record F)) (denied : Text → Bool) (fuel : ℕ)
    (since : ℤ) (disk : Disk (Item F)) (allowed : (q : Text) → denied q ≡ false)
    (healthy : (q : Text) (items : List (Item F))
      → lookup q disk.files ≡ some items
      → IsHealthy items)
    (enough : (q : Text) (items : List (Item F))
      → lookup q disk.files ≡ some items
      → length items < fuel) where
  read_file-some :
      (q : Text) (items : List (Item F))
      → lookup q disk.files ≡ some items
      → read_file denied fuel since disk q ≡ loaded (some (file_records since disk q))
  unfolding read_file file_records
  read_file-some q items h =
      rw
        (
          read_file,
          file_records,
          h,
          allowed q,
          read_loop-IsHealthy fuel since items (healthy q items h) (enough q items h),
        )
        refl

  read_file-none :
      (q : Text) → lookup q disk.files ≡ none → read_file denied fuel since disk q ≡ missing
  unfolding read_file
  read_file-none q h = rw (read_file, h) refl

  before-file :
      (q : Text) (rs : List (Record F))
      → before (read_file denied fuel since disk q) (some rs)
        ≡ some (file_records since disk q ++ rs)
  before-file q rs = elim (Option-cases (lookup q disk.files)) [
    | inl e ↦ rw (read_file-none q e) (unfold before file_records in rw (e, file_records) refl)
    | inr (items, e) ↦ rw (read_file-some q items e) (unfold before in refl)
  ]

  read_rotated-all :
      (d prefix ext : Text) (names : List Text)
      → read_rotated denied fuel since disk d prefix ext names
        ≡ some (rotated_records since disk d prefix ext names)
  unfolding read_rotated rotated_records
  read_rotated-all d prefix ext [] = refl
  read_rotated-all d prefix ext (name ∷ names) =
      elim (Bool-cases (has_prefix prefix name && has_suffix ext name)) [
        | inl e ↦
            rw (read_rotated, rotated_records, e, read_rotated-all d prefix ext names)
              (before-file (join_path d name) (rotated_records since disk d prefix ext names))
        | inr e ↦ rw (read_rotated, rotated_records, e) (read_rotated-all d prefix ext names)
      ]

  read_current-all :
      (path : Text) (rs : List (Record F))
      → read_current sort denied fuel since disk path rs
        ≡ some (returned (sort (rs ++ file_records since disk path)))
  unfolding read_current
  read_current-all path rs = elim (Option-cases (lookup path disk.files)) [
    | inl e ↦
        rw (read_current, read_file-none path e)
          (unfold file_records in rw (e, file_records, append-nil rs) refl)
    | inr (items, e) ↦ rw (read_current, read_file-some path items e) refl
  ]

  read_all-all :
      (path : Text) (names : List Text)
      → read_all sort denied fuel since disk path names
        ≡ some (
            returned (
              sort (
                rotated_records since disk
                  (dir path)
                  (base (stem path) ++ b'-' ∷ [])
                  (ext path)
                  names
                ++ file_records since disk path)))
  unfolding read_all
  read_all-all path names =
      rw (read_all, read_rotated-all (dir path) (base (stem path) ++ b'-' ∷ []) (ext path) names)
        (read_current-all path
          (rotated_records since disk (dir path) (base (stem path) ++ b'-' ∷ []) (ext path) names))

  -- the records of the log in the window, as the sort arranges them
  read_records-sort :
      (given : Text)
      → read_records sort denied fuel since disk given
        ≡ some (returned (sort (log_records since disk (path_of given))))
  unfolding read_records log_records names_of
  read_records-sort given =
      let path = path_of given in
      elim (Option-cases (read_dir (dir path) disk)) [
        | inl e ↦
            rw (read_records, allowed (dir path), e)
              (rw (log_records, names_of, e) (read_all-all path []))
        | inr (names, e) ↦
            rw (read_records, allowed (dir path), e)
              (rw (log_records, names_of, e) (read_all-all path names))
      ]

  -- Where every file can be opened, is free of syntax errors and has fewer items than the loop has rounds, and
  -- the sort gives a sorted list of the same elements, `ReadRecords` ends and returns records that are sorted by
  -- time and are, in whatever order those of the same second have, exactly those that the log's current file
  -- and its rotated files have at `since` or later, in front of a stray closing bracket: none is earlier, and
  -- none is left out for being later than the present.
  pub read_records_lem :
      IsSort by_time sort
      → (given : Text)
      → (rs : List (Record F)) × (read_records sort denied fuel since disk given
          ≡ some (returned rs))
        × SameElements rs (log_records since disk (path_of given))
        × IsSorted by_time rs
        × All (λ r. ltb_ℤ r.timestamp since ≡ false) rs
  read_records_lem is_sort given =
      let found = log_records since disk (path_of given) in
      (
        sort found,
        read_records-sort given,
        is_sort.same found,
        is_sort.sorted found,
        count_of-eq-zero (is_early since disk) (sort found) (
            is_sort.same found (is_early since disk)
            ∙ log_records-early since disk (path_of given)),
      )
