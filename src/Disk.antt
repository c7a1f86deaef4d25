-- ===== src/Disk.antt =====
-- The files that the two rotating logs (internal/monitor, internal/localwriter) work on, with what
-- `os.OpenFile`, `os.Rename`, `os.Remove` and `os.ReadDir` do to them. A file is the list of its lines.
-- A call fails where the path is locked, or where the file to rename or remove is not there.
use limiz.Base.{
  Text, Map, List, [], ◌∷◌, ◌++◌, Bool, true, false, not, none, some, Option, if◌then◌else◌,
  text_eq, text_eq_iff, lookup, insert, text_less, insertion_sort, ◌≡◌, ◌∙◌, refl, arith, inl, inr,
  ◌⊎◌, Bool-cases,
}
use limiz.Filepath.{dir, base}

pub record Disk (L : Type 0) : Type 0 where
  pub files : Map (List L)
  pub is_locked : Text → Bool
  -- whether a directory can be read
  pub has_dir : Text → Bool

unfoldable pub delete {ℓ} : {V : Type ℓ} → Text → Map V → Map V
unfolding text_eq
delete k [] = []
delete k ((j, v) ∷ m) = if text_eq j k then delete k m else (j, v) ∷ delete k m

module _ {L : Type 0} where
  -- `os.OpenFile(path, O_APPEND|O_CREATE|O_WRONLY)`: none where it fails
  unfoldable pub open_append : Text → Disk L → Option (Disk L)
  unfolding lookup insert
  open_append path disk = if disk.is_locked path then none else elim (lookup path disk.files) [
    | none ↦ some (record disk { files = insert path [] disk.files })
    | some _ ↦ some disk
  ]

  -- a line at the end of a file that is open
  unfoldable pub append_line : Text → L → Disk L → Disk L
  unfolding lookup insert
  append_line path line disk = elim (lookup path disk.files) [
    | none ↦ disk
    | some lines ↦ record disk { files = insert path (lines ++ line ∷ []) disk.files }
  ]

  unfoldable pub rename : Text → Text → Disk L → Option (Disk L)
  unfolding lookup insert delete
  rename from to disk = if disk.is_locked to then none else elim (lookup from disk.files) [
    | none ↦ none
    | some lines ↦ some (record disk { files = insert to lines (delete from disk.files) })
  ]

  unfoldable pub remove : Text → Disk L → Option (Disk L)
  unfolding lookup delete
  remove path disk = if disk.is_locked path then none else elim (lookup path disk.files) [
    | none ↦ none
    | some _ ↦ some (record disk { files = delete path disk.files })
  ]

  names_in : Text → Map (List L) → List Text
  unfolding dir base text_eq
  names_in d [] = []
  names_in d ((p, lines) ∷ m) = if text_eq (dir p) d then base p ∷ names_in d m else names_in d m

  -- `os.ReadDir`: the names in a directory, sorted; none where it fails
  unfoldable pub read_dir : Text → Disk L → Option (List Text)
  unfolding names_in insertion_sort text_less
  read_dir d disk =
      if disk.has_dir d then some (insertion_sort text_less (names_in d disk.files)) else none

pub lookup-delete {ℓ} :
    {V : Type ℓ} (k j : Text) (m : Map V)
    → lookup j (delete k m) ≡ (if text_eq k j then none else lookup j m)
unfolding lookup delete
lookup-delete k j [] = ground arith
lookup-delete k j ((i, w) ∷ m) =
    ground (arith, text_eq_iff k j, text_eq_iff i k, text_eq_iff i j, lookup-delete k j m)

-- a path is one of the list
unfoldable pub is_among : Text → List Text → Bool
unfolding text_eq
is_among q [] = false
is_among q (p ∷ ps) = if text_eq p q then true else is_among q ps

module _ {L : Type 0} where
  -- a removal that fails is logged and passed over
  unfoldable pub try_remove : Text → Disk L → Disk L
  unfolding remove
  try_remove path disk = elim (remove path disk) [ none ↦ disk | some disk' ↦ disk' ]

  -- the loop over the files that have to go
  unfoldable pub remove_all : List Text → Disk L → Disk L
  unfolding try_remove
  remove_all [] disk = disk
  remove_all (p ∷ ps) disk = remove_all ps (try_remove p disk)

  try_remove-is_locked : (p : Text) (disk : Disk L) → (try_remove p disk).is_locked ≡ disk.is_locked
  unfolding try_remove remove
  try_remove-is_locked p disk = ground arith

  try_remove-lookup :
      (p q : Text) (disk : Disk L)
      → lookup q (try_remove p disk).files ≡ (
          if (if text_eq p q then not (disk.is_locked q) else false)
          then none
          else lookup q disk.files)
  unfolding try_remove remove
  try_remove-lookup p q disk = ground (arith, lookup-delete p q disk.files, text_eq_iff p q)

  -- What is left of a file when the files of a list have been removed.
  pub remove_all-lookup :
      (ps : List Text) (q : Text) (disk : Disk L)
      → lookup q (remove_all ps disk).files ≡ (
          if (if is_among q ps then not (disk.is_locked q) else false)
          then none
          else lookup q disk.files)
  unfolding remove_all is_among
  remove_all-lookup [] q disk = refl
  remove_all-lookup (p ∷ ps) q disk =
      remove_all-lookup ps q (try_remove p disk)
      ∙ rw (try_remove-is_locked p disk) (ground (arith, try_remove-lookup p q disk))

  pub remove_all-is_locked :
      (ps : List Text) (disk : Disk L) → (remove_all ps disk).is_locked ≡ disk.is_locked
  unfolding remove_all
  remove_all-is_locked [] disk = refl
  remove_all-is_locked (p ∷ ps) disk =
      remove_all-is_locked ps (try_remove p disk) ∙ try_remove-is_locked p disk

  -- a file stays as it is or goes
  pub remove_all-or-none :
      (ps : List Text) (q : Text) (disk : Disk L)
      → (lookup q (remove_all ps disk).files ≡ lookup q disk.files)
        ⊎ (lookup q (remove_all ps disk).files ≡ none)
  remove_all-or-none ps q disk =
      elim (Bool-cases (if is_among q ps then not (disk.is_locked q) else false)) [
        | inl e ↦ inr (remove_all-lookup ps q disk ∙ rw e refl)
        | inr e ↦ inl (remove_all-lookup ps q disk ∙ rw e refl)
      ]
