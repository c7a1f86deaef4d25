-- ===== src/Monitor/Store.antt =====
-- internal/monitor/store.go: the store, which writes to one file and puts it aside when the day
-- changes.
pub mod Retention
pub mod Rotation
pub mod Days
use limiz.Base.{
  ℕ, ◌-◌, Text, List, [], ◌∷◌, ◌++◌, Bool, true, false, not, ◌||◌, none, some, Option,
  if◌then◌else◌, text_eq, codes, leb, length, take, map, text_less, insertion_sort,
}
use limiz.Strings.Affix.{has_prefix, has_suffix, trim_prefix, trim_suffix}
use limiz.Filepath.{join_path, dir, base, ext}
use limiz.Disk.{Disk, open_append, append_line, rename, remove_all, read_dir}
use limiz.Monitor.Record.{Record, Item, entry}
use limiz.Monitor.Dates.{is_date}

abbrev pub default_db_path : Text
default_db_path = codes "/var/lib/limiz/mon.db"

abbrev pub max_days : ℕ
max_days = 2

-- `is_open` says that `file` and `enc` are not nil.
pub record Store : Type 0 where
  pub path : Text
  pub is_open : Bool
  pub day_tag : Text

pub data StoreError : Type 0 where
  no_directory : Text → StoreError
  not_opened : Text → StoreError

-- `path` without its extension
unfoldable pub stem : Text → Text
unfolding trim_suffix ext
stem path = trim_suffix (ext path) path

unfoldable pub rotated_name : Text → Text → Text
unfolding stem ext
rotated_name path day_tag = stem path ++ b'-' ∷ day_tag ++ ext path

pub record RotatedFile : Type 0 where
  pub path : Text
  pub date : Text

-- the loop over the directory's entries
unfoldable pub rotated_files : Text → Text → Text → List Text → List RotatedFile
unfolding has_prefix has_suffix trim_prefix trim_suffix is_date join_path
rotated_files d prefix ext [] = []
rotated_files d prefix ext (name ∷ names) =
    let rest = rotated_files d prefix ext names in
    let date = trim_suffix ext (trim_prefix prefix name) in
    if not (has_prefix prefix name) || not (has_suffix ext name)
    then rest
    else if is_date date
    then record { path = join_path d name; date = date } ∷ rest
    else rest

unfoldable pub earlier : RotatedFile → RotatedFile → Bool
unfolding text_less
earlier a b = text_less a.date b.date

-- the files that `cleanOld` removes, oldest first
unfoldable pub expired : List RotatedFile → List RotatedFile
unfolding insertion_sort earlier
expired rotated =
    if leb (length rotated) max_days
    then []
    else take (length rotated - max_days) (insertion_sort earlier rotated)

module _ {F : Type 0} where
  unfoldable pub clean_old : Text → Disk (Item F) → Disk (Item F)
  unfolding expired rotated_files read_dir remove_all stem dir base ext
  clean_old path disk = elim (read_dir (dir path) disk) [
    | none ↦ disk
    | some names ↦
        remove_all
          (map (λ f. f.path)
            (expired (rotated_files (dir path) (base (stem path) ++ b'-' ∷ []) (ext path) names)))
          disk
  ]

  -- `openFile`, whose error the caller reports
  open_file : Store → Disk (Item F) → Store × Disk (Item F)
  unfolding open_append
  open_file s disk = elim (open_append s.path disk) [
    | none ↦ (s, disk)
    | some disk' ↦ (record s { is_open = true }, disk')
  ]

  -- `os.MkdirAll` has made the directory or not; `today` is the date in UTC
  unfoldable pub new_store :
      Text → Bool → Text → Disk (Item F) → Option StoreError × Option Store × Disk (Item F)
  unfolding open_append clean_old dir text_eq
  new_store given made today disk =
      let path = if text_eq given [] then default_db_path else given in
      if not made
      then (some (no_directory (dir path)), none, disk)
      else elim (open_append path disk) [
        | none ↦ (some (not_opened path), none, disk)
        | some disk' ↦ (
          none,
          some (record { path = path; is_open = true; day_tag = today }),
          clean_old path disk',
        )
      ]

  -- a failed renaming is logged
  rename_away : Store → Disk (Item F) → Disk (Item F)
  unfolding rename rotated_name
  rename_away s disk = elim (rename s.path (rotated_name s.path s.day_tag) disk) [
    | none ↦ disk
    | some disk' ↦ disk'
  ]

  unfoldable pub rotate_locked : Store → Disk (Item F) → Store × Disk (Item F)
  unfolding rename_away clean_old open_file
  rotate_locked s disk =
      open_file (record s { is_open = false }) (clean_old s.path (rename_away s disk))

  encode : (F → Bool) → Store → Record F → Disk (Item F) → Disk (Item F)
  unfolding append_line
  encode is_finite s r disk =
      if s.is_open
      then (if is_finite r.duration_ms then append_line s.path (entry r) disk else disk)
      else disk

  -- the rotation on a new day
  next_day : Text → Store × Disk (Item F) → Store × Disk (Item F)
  unfolding rotate_locked text_eq
  next_day today (s, disk) =
      if text_eq today s.day_tag
      then (s, disk)
      else let (s', disk') = rotate_locked s disk in (record s' { day_tag = today }, disk')

  -- The encoder refuses a duration that is no finite number. `today` is the date in UTC at the call.
  unfoldable pub write :
      (F → Bool) → Text → Record F → Store × Disk (Item F) → Store × Disk (Item F)
  unfolding next_day encode
  write is_finite today r st = let (s, disk) = next_day today st in (s, encode is_finite s r disk)

unfoldable pub close : Store → Store
close s = record s { is_open = false }
