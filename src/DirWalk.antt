-- ===== src/DirWalk.antt =====
-- `measureDir` of plugins-src/dir-size/main.go and plugins-src/folder-size/main.go, which are the
-- same, over the tree that `filepath.WalkDir` visits.
pub mod Sizes
use limiz.Base.{ℕ, suc, ◌+◌, ◌%◌, ◌^◌, Text, ◌++◌, Bool, true, false, Option, none, some, codes}

-- What a name of the file system is. A directory has its entries in the order of their names, and
-- `unread` where reading them fails; `os.ReadDir` returns those it has read all the same.
mutual
  pub data Node : Type 0 where
    -- no directory and no symbolic link: its size, none where `d.Info()` fails
    file : Option ℕ → Node
    symlink : Node
    directory : Bool → Entries → Node

  pub data Entries : Type 0 where
    nil : Entries
    cons : Text → Node → Entries → Entries

-- `totalBytes` and `fileCount`, the bits of an int64
pub record Totals : Type 0 where
  pub bytes : ℕ
  pub files : ℕ

-- The function that `WalkDir` calls, for an entry that can be visited. With an error it prints a warning
-- and leaves the totals as they are.
unfoldable visit : Node → Totals → Totals
visit (directory unread es) t = t
visit symlink t = t
visit (file none) t = t
visit (file (some size)) t = record {
  bytes = (t.bytes + size) % 2 ^ 64;
  files = (t.files + 1) % 2 ^ 64;
}

-- `filepath.WalkDir`: the entry itself, then what stands under it; the function returns nil always
unfoldable mutual
  unfolding visit

  pub walk : Node → Totals → Totals
  walk (directory unread es) t = walk_entries es (visit (directory unread es) t)
  walk symlink t = visit symlink t
  walk (file size) t = visit (file size) t

  pub walk_entries : Entries → Totals → Totals
  walk_entries nil t = t
  walk_entries (cons name n es) t = walk_entries es (walk n t)

-- what `os.Stat` finds, which follows symbolic links
pub data Stat : Type 0 where
  missing : Text → Stat
  found : (is_dir : Bool) → Stat

-- The file system: `os.Stat`, and what `os.Lstat` finds with the tree under it. Where `Lstat` fails,
-- `WalkDir` calls its function with the error.
pub record FileSystem : Type 0 where
  pub stat : Text → Stat
  pub lstat : Text → Option Node

pub data Measured : Type 0 where
  measured : Totals → Measured
  failed : Text → Measured

abbrev pub zero_totals : Totals
zero_totals = record { bytes = 0; files = 0 }

unfoldable pub walk_dir : Option Node → Totals → Totals
unfolding walk
walk_dir none t = t
walk_dir (some n) t = walk n t

-- a failure comes with both totals zero
measure_stat : Stat → Option Node → Text → Measured
unfolding walk_dir
measure_stat (missing e) n root = failed (codes "directory inaccessible: " ++ e)
measure_stat (found false) n root = failed (codes "'" ++ (root ++ codes "' is not a directory"))
measure_stat (found true) n root = measured (walk_dir n zero_totals)

unfoldable pub measure_dir : FileSystem → Text → Measured
unfolding measure_stat
measure_dir fs root = measure_stat (fs.stat root) (fs.lstat root) root
