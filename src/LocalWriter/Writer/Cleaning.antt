-- ===== src/LocalWriter/Writer/Cleaning.antt =====
-- internal/localwriter/writer.go: the rotated files that `cleanOldFiles` removes.
use limiz.Base.{
  if◌then◌else◌, none, ℕ, suc, ◌-◌, min, Text, List, [], ◌∷◌, ◌++◌, false, not, some, text_eq,
  length, length-drop, take, drop, take-append-drop, ltb, leb, pos, count_of, count_of-append, All,
  IsSorted-split, SameElements, insertion_sort, insertion_sort-IsSorted,
  insertion_sort-SameElements, length-SameElements, text_less, text_less-IsOrder, lookup, ◌≡◌, ◌∙◌,
  refl, ap, arith, Bool-cases, inl, inr,
}
use limiz.Filepath.{dir, base}
use limiz.Disk.{Disk, read_dir, remove_all-lookup, is_among}
use limiz.LocalWriter.Jsonl.{JsonlRecord}
use limiz.LocalWriter.Writer.{Config, surplus, rotated_paths, clean_old_files}

surplus-eq-take : (m : ℕ) (ps : List Text) → surplus (pos m) ps ≡ take (length ps - m) ps
unfolding surplus
surplus-eq-take m [] = let z : 0 - m ≡ 0 = omega arith in rw z refl
surplus-eq-take m (p ∷ ps) = elim (Bool-cases (ltb m (suc (length ps)))) [
  | inl e ↦
      let z : suc (length ps) - m ≡ suc (length ps - m) = ground arith in
      rw (surplus, e, z) (ap (λ qs. p ∷ qs) (surplus-eq-take m ps))
  | inr e ↦ let z : suc (length ps) - m ≡ 0 = ground arith in rw (surplus, e, z) refl
]

-- what stays, in order
unfoldable remaining : ℕ → List Text → List Text
remaining m ps = drop (length ps - m) ps

surplus-append-remaining : (m : ℕ) (ps : List Text) → surplus (pos m) ps ++ remaining m ps ≡ ps
unfolding remaining
surplus-append-remaining m ps = rw (surplus-eq-take m ps) (take-append-drop (length ps - m) ps)

-- the paths in the order in which they are removed
abbrev in_order : List Text → List Text
in_order found = insertion_sort text_less found

-- what goes, and what stays after it
surplus_lem :
    (m : ℕ) (found : List Text)
    → SameElements (surplus (pos m) (in_order found) ++ remaining m (in_order found)) found
      × (length (remaining m (in_order found)) ≡ min m (length found))
      × All
          (λ old. All (λ new. text_less new old ≡ false) (remaining m (in_order found)))
          (surplus (pos m) (in_order found))
surplus_lem m found =
    let ps = in_order found in
    let same = insertion_sort-SameElements text_less found in
    (
      rw (surplus-append-remaining m ps) same,
      unfold remaining in
          omega (arith, length-drop (length ps - m) ps, length-SameElements ps found same),
      IsSorted-split text_less (surplus (pos m) ps) (remaining m ps) (
          rw (surplus-append-remaining m ps)
            (insertion_sort-IsSorted text_less text_less-IsOrder found)),
    )

is_among-count :
    (q : Text) (ps : List Text) → is_among q ps ≡ not (leb (count_of (λ p. text_eq p q) ps) 0)
unfolding is_among count_of
is_among-count q [] = refl
is_among-count q (p ∷ ps) = ground (arith, is_among-count q ps)

is_among-surplus :
    (q : Text) (m : ℕ) (found : List Text)
    → is_among q found ≡ false
    → is_among q (surplus (pos m) (in_order found)) ≡ false
is_among-surplus q m found h = ground (
  arith,
  is_among-count q found,
  is_among-count q (surplus (pos m) (in_order found)),
  count_of-append (λ p. text_eq p q) (surplus (pos m) (in_order found))
      (remaining m (in_order found)),
  (surplus_lem m found).0 (λ p. text_eq p q),
)

-- the rotated files among the names of the log's directory
abbrev pub found_in : Config → Text → Text → List Text → List Text
found_in cfg stem ext names =
    rotated_paths (dir stem) (base stem ++ b'-' ∷ []) ext (base cfg.db_path) names

module _ {F : Type 0} where
  -- Where the number of files to keep is not negative and `cleanOldFiles` can read the directory of the log, the
  -- rotated files of the log that it finds there, which are those other than the log itself whose name starts
  -- with the log's name and a dash and ends with the log's extension, are split in two: it keeps as many as are
  -- configured, or all where there are no more, none whose path is before that of another that it removes.
  -- Afterwards a path has no file if it is that of a file to be removed that the system lets go, and what it had
  -- before otherwise.
  pub clean_old_files-keeps_last :
      (cfg : Config) (m : ℕ) (stem ext : Text) (names : List Text) (disk : Disk (JsonlRecord F))
      → cfg.max_files ≡ pos m
      → read_dir (dir stem) disk ≡ some names
      → (gone : List Text) × (stay : List Text) × SameElements
          (gone ++ stay)
          (found_in cfg stem ext names)
        × (length stay ≡ min m (length (found_in cfg stem ext names)))
        × All (λ old. All (λ new. text_less new old ≡ false) stay) gone
        × ((q : Text)
            → lookup q (clean_old_files cfg stem ext disk).files ≡ (
                if (if is_among q gone then not (disk.is_locked q) else false)
                then none
                else lookup q disk.files))
  unfolding clean_old_files
  clean_old_files-keeps_last cfg m stem ext names disk e h =
      let ps = in_order (found_in cfg stem ext names) in
      let split = surplus_lem m (found_in cfg stem ext names) in
      (
        surplus (pos m) ps,
        remaining m ps,
        split.0,
        split.1,
        split.2,
        λ q. rw (clean_old_files, h, e) (remove_all-lookup (surplus (pos m) ps) q disk),
      )

  -- `cleanOldFiles` leaves each file as it is whose path is not that of a directory entry with the
  -- log's name, a dash and the log's extension, other than the log itself.
  pub clean_old_files-untouched :
      (cfg : Config) (m : ℕ) (stem ext q : Text) (names : List Text) (disk : Disk (JsonlRecord F))
      → cfg.max_files ≡ pos m
      → read_dir (dir stem) disk ≡ some names
      → is_among q (rotated_paths (dir stem) (base stem ++ b'-' ∷ []) ext (base cfg.db_path) names)
        ≡ false
      → lookup q (clean_old_files cfg stem ext disk).files ≡ lookup q disk.files
  unfolding clean_old_files
  clean_old_files-untouched cfg m stem ext q names disk e h n =
      let found = rotated_paths (dir stem) (base stem ++ b'-' ∷ []) ext (base cfg.db_path) names in
      rw (clean_old_files, h, e)
        (remove_all-lookup (surplus (pos m) (in_order found)) q disk
          ∙ rw (is_among-surplus q m found n) refl)
