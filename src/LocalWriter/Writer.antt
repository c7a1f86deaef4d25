-- ===== src/LocalWriter/Writer.antt =====
-- internal/localwriter/writer.go: the writer, its rotation, and its loop as a sequence of events.
pub mod Cleaning
pub mod Validation
use limiz.Base.{
  ℕ, ◌+◌, ◌-◌, ◌*◌, Text, List, [], ◌∷◌, ◌++◌, Bool, true, false, not, ◌&&◌, ◌||◌, none, some,
  Option, if◌then◌else◌, text_eq, codes, leb, ltb, length, ℤ, pos, negsuc, ltb_ℤ, insertion_sort,
  text_less,
}
use limiz.Strings.Affix.{has_prefix, has_suffix, trim_suffix}
use limiz.Filepath.{clean, join_path, dir, base, ext}
use limiz.Time.Duration.{second}
use limiz.Floats.{Floats}
use limiz.Disk.{Disk, rename, remove_all, read_dir}
use limiz.Collectors.Metric.{Metric, Registry}
use limiz.Collectors.Registry.{collect_raw}
use limiz.LocalWriter.Intervals.{parse_interval}
use limiz.LocalWriter.Jsonl.{
  JsonlRecord, JsonlBackend, BackendError, extension, select_backend, open_backend, close_backend,
  write_backend,
}

pub record Config : Type 0 where
  pub enabled : Bool
  pub format : Text
  pub interval : Text
  pub db_path : Text
  pub rotate : Text
  pub max_files : ℤ
  pub batch_size : ℤ

-- `dbStart` is in nanoseconds.
pub record Writer : Type 0 where
  pub cfg : Config
  pub backend : JsonlBackend
  pub interval : ℤ
  pub rotate : ℤ
  pub db_start : ℕ

pub data ConfigError : Type 0 where
  bad_interval : Text → ConfigError
  short_interval : ℤ → ConfigError
  bad_rotate : Text → ConfigError
  no_db_directory : Text → ConfigError
  backend_failed : BackendError → ConfigError

-- the period of the rotation; 0 where it is off
unfoldable pub rotate_period : Text → Option ℤ
unfolding parse_interval text_eq
rotate_period s = if text_eq s [] || text_eq s (codes "0") then some (pos 0) else parse_interval s

abbrev or_default : ℕ → ℤ → ℤ
or_default n x = if ltb_ℤ (pos 0) x then x else pos n

-- the defaults of `New`, and the cleaned path
with_defaults : Config → Config
unfolding clean text_eq
with_defaults cfg = record cfg {
  max_files = or_default 5 cfg.max_files;
  batch_size = or_default 500 cfg.batch_size;
  db_path = clean (if text_eq cfg.db_path [] then codes "metrics" ++ extension else cfg.db_path);
}

module _ {F : Type 0} where
  -- the last steps of `New`; `made` tells the directories that `os.MkdirAll` makes or finds
  new_backend :
      (Text → Bool)
      → ℕ
      → Config
      → ℤ
      → ℤ
      → Disk (JsonlRecord F)
      → Option ConfigError × Option Writer × Disk (JsonlRecord F)
  unfolding open_backend dir text_eq
  new_backend made now cfg interval rotate disk =
      let (error, backend, disk') = open_backend cfg.db_path (select_backend cfg.format) disk in
      if not (text_eq (dir cfg.db_path) (codes ".")) && not (made (dir cfg.db_path))
      then (some (no_db_directory (dir cfg.db_path)), none, disk)
      else elim error [
        | some e ↦ (some (backend_failed e), none, disk')
        | none ↦ (
          none,
          some (record {
            cfg = cfg;
            backend = backend;
            interval = interval;
            rotate = rotate;
            db_start = now;
          }),
          disk',
        )
      ]

  unfoldable pub new_writer :
      (Text → Bool)
      → ℕ
      → Config
      → Disk (JsonlRecord F)
      → Option ConfigError × Option Writer × Disk (JsonlRecord F)
  unfolding new_backend with_defaults rotate_period parse_interval
  new_writer made now cfg disk = elim (parse_interval cfg.interval) [
    | none ↦ (some (bad_interval cfg.interval), none, disk)
    | some interval ↦
        if ltb_ℤ interval (pos (5 * second))
        then (some (short_interval interval), none, disk)
        else elim (rotate_period cfg.rotate) [
          | none ↦ (some (bad_rotate cfg.rotate), none, disk)
          | some rotate ↦ new_backend made now (with_defaults cfg) interval rotate disk
        ]
  ]

-- the loop of `cleanOldFiles` over the entries of the directory
unfoldable pub rotated_paths : Text → Text → Text → Text → List Text → List Text
unfolding has_prefix has_suffix text_eq join_path
rotated_paths d prefix ext own [] = []
rotated_paths d prefix ext own (name ∷ names) =
    let rest = rotated_paths d prefix ext own names in
    if has_prefix prefix name && has_suffix ext name && not (text_eq name own)
    then join_path d name ∷ rest
    else rest

-- `len(rotated) > w.cfg.MaxFiles`
abbrev exceeds : ℕ → ℤ → Bool
exceeds n (pos m) = ltb m n
exceeds n (negsuc m) = true

-- the second loop: the files that go, in order
unfoldable pub surplus : ℤ → List Text → List Text
surplus max [] = []
surplus max (p ∷ ps) =
    let rest = surplus max ps in if exceeds (length (p ∷ ps)) max then p ∷ rest else []

module _ {F : Type 0} where
  unfoldable pub clean_old_files :
      Config → Text → Text → Disk (JsonlRecord F) → Disk (JsonlRecord F)
  unfolding read_dir rotated_paths surplus insertion_sort text_less remove_all dir base
  clean_old_files cfg stem ext disk = elim (read_dir (dir stem) disk) [
    | none ↦ disk
    | some names ↦
        remove_all
          (surplus cfg.max_files (
            insertion_sort text_less
              (rotated_paths (dir stem) (base stem ++ b'-' ∷ []) ext (base cfg.db_path) names)))
          disk
  ]

  -- the renaming; where it fails, nothing is cleaned
  rename_and_clean : Config → Text → Disk (JsonlRecord F) → Disk (JsonlRecord F)
  unfolding rename clean_old_files ext trim_suffix
  rename_and_clean cfg ts disk =
      let extension = ext cfg.db_path in
      let stem = trim_suffix extension cfg.db_path in
      elim (rename cfg.db_path (stem ++ b'-' ∷ ts ++ extension) disk) [
        | none ↦ disk
        | some disk' ↦ clean_old_files cfg stem extension disk'
      ]

  -- `ts` is the time in UTC, as `20060102-150405`
  unfoldable pub rotate_file :
      Text → ℕ → Writer → Disk (JsonlRecord F) → Option BackendError × Writer × Disk (JsonlRecord F)
  unfolding rename_and_clean close_backend open_backend
  rotate_file ts now w disk =
      let (error, backend, disk') =
        open_backend w.cfg.db_path (close_backend w.backend) (rename_and_clean w.cfg ts disk) in
      elim error [
        | some e ↦ (some e, record w { backend = backend }, disk')
        | none ↦ (none, record w { backend = backend; db_start = now }, disk')
      ]

-- what wakes the loop: the ticker, or `Stop`, which closes the channel
pub data Wake : Type 0 where
  tick : ℕ → Wake
  stop : ℕ → Wake

-- The writer with the machine that the collectors read, and its files. An error of a write or of a
-- rotation is logged.
pub record Running (W F : Type 0) : Type 0 where
  pub writer : Writer
  pub world : W
  pub disk : Disk (JsonlRecord F)

module _ (fl : Floats) (is_finite : fl.F → Bool) (rfc3339 stamp : ℕ → Text) {W : Type 0}
    (registry : Registry W fl.F) where
  open fl use {F}

  write_metrics : ℕ → Running W F → W → List (Metric F) → Running W F
  unfolding write_backend
  write_metrics now st w [] = record st { world = w }
  write_metrics now st w (m ∷ ms) = record st {
    world = w;
    disk = (write_backend fl is_finite rfc3339 st.writer.backend now (m ∷ ms) st.disk).1;
  }

  unfoldable pub write_snapshot : ℕ → Running W F → Running W F
  unfolding write_metrics collect_raw
  write_snapshot now st =
      let (w, metrics) = collect_raw registry st.world in write_metrics now st w metrics

  is_due : Writer → ℕ → Bool
  is_due w now = ltb_ℤ (pos 0) w.rotate && not (ltb_ℤ (pos (now - w.db_start)) w.rotate)

  rotate_if_due : ℕ → Running W F → Running W F
  unfolding is_due rotate_file
  rotate_if_due now st =
      if is_due st.writer now
      then (let (error, w, disk) = rotate_file (stamp now) now st.writer st.disk in
          record st { writer = w; disk = disk })
      else st

  -- one round of the loop
  unfoldable pub on_wake : Wake → Running W F → Running W F
  unfolding write_snapshot rotate_if_due
  on_wake (tick now) st = write_snapshot now (rotate_if_due now st)
  on_wake (stop now) st = write_snapshot now st

  -- `Stop` closes the backend once the loop has ended
  close_writer : Running W F → Running W F
  unfolding close_backend
  close_writer st = record st {
    writer = record st.writer { backend = close_backend st.writer.backend };
  }

  wake_loop : List Wake → Running W F → Running W F
  unfolding on_wake close_writer
  wake_loop [] st = st
  wake_loop (tick now ∷ ws) st = wake_loop ws (on_wake (tick now) st)
  wake_loop (stop now ∷ ws) st = close_writer (on_wake (stop now) st)

  -- `Start` and what follows: a snapshot at once, then the rounds
  unfoldable pub run_writer : ℕ → List Wake → Running W F → Running W F
  unfolding wake_loop write_snapshot
  run_writer now ws st = wake_loop ws (write_snapshot now st)
