-- ===== src/Collectors/Linux/Filesystem.antt =====
-- internal/collectors/filesystem_linux.go. `syscall.Statfs` is a function of the mount point, none where it
-- fails.
pub mod Types
pub mod Mounts
use limiz.Base.{
  ℕ, Text, Map, List, [], ◌∷◌, ◌++◌, String, Bool, true, false, not, ◌||◌, Option, none, some,
  codes, if◌then◌else◌, text_eq, lookup, insert, map,
}
use limiz.Strings.Affix.{has_prefix}
use limiz.Strings.Fields.{fields}
use limiz.Strings.Lines.{scan_lines}
use limiz.Floats.{Floats}
use limiz.Collectors.Metric.{Metric, gauge}
use limiz.Collectors.Registry.{is_seen}

abbrev pub ignored_fs_types : List Text
ignored_fs_types =
    codes "tmpfs"
    ∷ codes "devtmpfs"
    ∷ codes "devpts"
    ∷ codes "sysfs"
    ∷ codes "proc"
    ∷ codes "cgroup"
    ∷ codes "cgroup2"
    ∷ codes "pstore"
    ∷ codes "securityfs"
    ∷ codes "debugfs"
    ∷ codes "tracefs"
    ∷ codes "hugetlbfs"
    ∷ codes "mqueue"
    ∷ codes "fusectl"
    ∷ codes "binfmt_misc"
    ∷ codes "autofs"
    ∷ codes "configfs"
    ∷ codes "efivarfs"
    ∷ codes "overlay"
    ∷ codes "nsfs"
    ∷ codes "fuse.lxcfs"
    ∷ []

unfoldable pub among : Text → List Text → Bool
unfolding text_eq
among s [] = false
among s (t ∷ ts) = text_eq t s || among s ts

-- `syscall.Statfs_t`
pub record Statfs : Type 0 where
  pub bsize : ℕ
  pub blocks : ℕ
  pub bfree : ℕ
  pub bavail : ℕ
  pub files : ℕ
  pub ffree : ℕ

module _ (fl : Floats) (statfs : Text → Option Statfs) where
  open fl use {F, of_nat, mul}

  abbrev metric : Text → Text → Text → String → String → F → Metric F
  metric device mountpoint fstype name help v = record {
    name = codes name;
    help = codes help;
    type = gauge;
    labels =
        (codes "device", device) ∷ (codes "mountpoint", mountpoint) ∷ (codes "fstype", fstype) ∷ [];
    value = v;
  }

  stat_metrics : Text → Text → Text → Statfs → List (Metric F)
  stat_metrics d m t stat =
      let block_size = of_nat stat.bsize in
      metric d m t "node_filesystem_size_bytes" "Filesystem size in bytes."
        (mul (of_nat stat.blocks) block_size)
      ∷ metric d m t "node_filesystem_free_bytes" "Filesystem free space (for root)."
          (mul (of_nat stat.bfree) block_size)
      ∷ metric d m t "node_filesystem_avail_bytes" "Filesystem space available to non-root."
          (mul (of_nat stat.bavail) block_size)
      ∷ metric d m t "node_filesystem_files" "Total inodes." (of_nat stat.files)
      ∷ metric d m t "node_filesystem_files_free" "Free inodes." (of_nat stat.ffree)
      ∷ []

  mount_metrics : Text → Text → Text → Option Statfs → List (Metric F)
  unfolding stat_metrics
  mount_metrics d m t none = []
  mount_metrics d m t (some stat) = stat_metrics d m t stat

  -- the three reasons to leave a mount out
  is_left_out : Text → Text → Text → Map Bool → Bool
  is_left_out d m t seen =
      among t ignored_fs_types || (not (has_prefix (codes "/") d) || is_seen m seen)

  -- the loop over the lines, given by their fields
  mount_loop : List (List Text) → Map Bool → List (Metric F)
  unfolding is_left_out mount_metrics
  mount_loop [] seen = []
  mount_loop ((d ∷ m ∷ t ∷ rest) ∷ ls) seen =
      let kept = mount_metrics d m t (statfs m) ++ mount_loop ls (insert m true seen) in
      let skipped = mount_loop ls seen in if is_left_out d m t seen then skipped else kept
  mount_loop (_ ∷ ls) seen = mount_loop ls seen

  unfoldable pub collect_filesystem : Option Text → List (Metric F)
  unfolding mount_loop
  collect_filesystem none = []
  collect_filesystem (some mounts) = mount_loop (map fields (scan_lines mounts)) []
