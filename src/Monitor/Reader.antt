-- ===== src/Monitor/Reader.antt =====
-- internal/monitor/store.go: reading the log back. The loop over a file runs on fuel, since it does not
-- end on every file; none stands for a loop that is still running.
pub mod Loop
pub mod Complete
use limiz.Base.{
  ℕ, zero, suc, Text, List, [], ◌∷◌, ◌++◌, Bool, true, false, not, ◌&&◌, none, some, Option,
  if◌then◌else◌, text_eq, lookup, ℤ, ltb_ℤ,
}
use limiz.Strings.Affix.{has_prefix, has_suffix}
use limiz.Filepath.{join_path, dir, base, ext}
use limiz.Disk.{Disk, read_dir}
use limiz.Monitor.Record.{Record, Item, entry, mistyped, closing, broken}
use limiz.Monitor.Store.{default_db_path, stem}

module _ {F : Type 0} where
  -- `rec.Timestamp >= sinceUnix`
  abbrev pub in_window : ℤ → Record F → Bool
  in_window since r = not (ltb_ℤ r.timestamp since)

  keep : ℤ → Record F → Option (List (Record F)) → Option (List (Record F))
  keep since r none = none
  keep since r (some rs) = some (if in_window since r then r ∷ rs else rs)

  -- The loop while `dec.More()`. A syntax error stays in the decoder: each later `Decode` returns it
  -- again and reads nothing.
  unfoldable pub read_loop : ℕ → ℤ → List (Item F) → Option (List (Record F))
  unfolding keep
  read_loop zero since items = none
  read_loop (suc n) since [] = some []
  read_loop (suc n) since (closing ∷ items) = some []
  read_loop (suc n) since (broken ∷ items) = read_loop n since (broken ∷ items)
  read_loop (suc n) since (mistyped ∷ items) = read_loop n since items
  read_loop (suc n) since (entry r ∷ items) = keep since r (read_loop n since items)

pub data FileRead (F : Type 0) : Type 0 where
  missing : FileRead F
  refused : FileRead F
  -- none while the loop runs
  loaded : Option (List (Record F)) → FileRead F

pub data ReadError : Type 0 where
  no_read_dir : Text → ReadError
  no_read_file : Text → ReadError

-- What `ReadRecords` returns.
pub data ReadResult (F : Type 0) : Type 0 where
  failed : ReadError → ReadResult F
  returned : List (Record F) → ReadResult F

module _ {F : Type 0} where
  unfoldable pub by_time : Record F → Record F → Bool
  by_time a b = ltb_ℤ a.timestamp b.timestamp

  -- the records of a rotated file come before those of the files that follow; an error is logged
  before : FileRead F → Option (List (Record F)) → Option (List (Record F))
  before missing rest = rest
  before refused rest = rest
  before (loaded none) rest = none
  before (loaded (some rs)) none = none
  before (loaded (some rs)) (some rest) = some (rs ++ rest)

-- `denied` tells the paths that cannot be opened although they are there.
module _ {F : Type 0} (denied : Text → Bool) (fuel : ℕ) (since : ℤ) (disk : Disk (Item F)) where
  unfoldable pub read_file : Text → FileRead F
  unfolding read_loop lookup
  read_file path = elim (lookup path disk.files) [
    | none ↦ missing
    | some items ↦ if denied path then refused else loaded (read_loop fuel since items)
  ]

  -- the loop over the entries of the directory
  read_rotated : Text → Text → Text → List Text → Option (List (Record F))
  unfolding before read_file has_prefix has_suffix join_path
  read_rotated d prefix ext [] = some []
  read_rotated d prefix ext (name ∷ names) =
      let rest = read_rotated d prefix ext names in
      if has_prefix prefix name && has_suffix ext name
      then before (read_file (join_path d name)) rest
      else rest

-- `sort` is `sort.Slice` on the order by time, which promises a sorted list, and not which of two records of
-- the same second comes first.
module _ {F : Type 0} (sort : List (Record F) → List (Record F)) (denied : Text → Bool) (fuel : ℕ)
    (since : ℤ) (disk : Disk (Item F)) where
  -- the current file, after the rotated ones
  read_current : Text → List (Record F) → Option (ReadResult F)
  unfolding read_file
  read_current path rotated = elim (read_file denied fuel since disk path) [
    | missing ↦ some (returned (sort rotated))
    | refused ↦ some (failed (no_read_file path))
    | loaded none ↦ none
    | loaded (some rs) ↦ some (returned (sort (rotated ++ rs)))
  ]

  read_all : Text → List Text → Option (ReadResult F)
  unfolding read_rotated read_current stem dir base ext
  read_all path names =
      elim (read_rotated denied fuel since disk (dir path) (base (stem path) ++ b'-' ∷ [])
        (ext path) names) [ none ↦ none | some rotated ↦ read_current path rotated ]

  -- `dbPath` is `given`; none while a file is being read
  unfoldable pub read_records : Text → Option (ReadResult F)
  unfolding read_all read_dir text_eq dir
  read_records given =
      let path = if text_eq given [] then default_db_path else given in
      if denied (dir path)
      then some (failed (no_read_dir (dir path)))
      else elim (read_dir (dir path) disk) [
        | none ↦ read_all path []
        | some names ↦ read_all path names
      ]
