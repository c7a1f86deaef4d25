-- ===== src/LocalWriter/Writer/Validation.antt =====
-- internal/localwriter/writer.go: the checks of `New`.
use mathlib.Core.Option.{some-injective, some-ne-none}
use limiz.Filepath.{dir}
use limiz.Base.{
  ℕ, ◌*◌, Text, sym, text_eq, codes, not, ◌&&◌, Bool, true, false, some, ℤ, pos, ltb_ℤ, ◌≡◌, ◌∙◌,
  refl, Bool-cases, Option-cases, inl, inr,
}
use limiz.Time.Duration.{second}
use limiz.Disk.{Disk, open_append}
use limiz.LocalWriter.Intervals.{parse_interval}
use limiz.LocalWriter.Jsonl.{JsonlRecord, open_backend}
use limiz.LocalWriter.Writer.{Config, Writer, rotate_period, with_defaults, new_backend, new_writer}

-- what the writer has of a successful `New`
pub record IsReady (now : ℕ) (cfg : Config) (w : Writer) : Type 0 where
  pub interval : parse_interval cfg.interval ≡ some w.interval
  pub long_enough : ltb_ℤ w.interval (pos (5 * second)) ≡ false
  pub rotates : rotate_period cfg.rotate ≡ some w.rotate
  pub keeps_some : ltb_ℤ (pos 0) w.cfg.max_files ≡ true
  pub opened : w.backend.file ≡ some w.cfg.db_path
  pub started : w.db_start ≡ now

-- the writer that the last steps build
abbrev built : ℕ → Config → ℤ → ℤ → Writer
built now cfg interval rotate = record {
  cfg = cfg;
  backend = record { file = some cfg.db_path };
  interval = interval;
  rotate = rotate;
  db_start = now;
}

defaults-keep : (cfg : Config) → ltb_ℤ (pos 0) (with_defaults cfg).max_files ≡ true
unfolding with_defaults
defaults-keep cfg = elim (Bool-cases (ltb_ℤ (pos 0) cfg.max_files)) [
  | inl e ↦ rw (with_defaults, e) e
  | inr e ↦ rw (with_defaults, e) refl
]

module _ {F : Type 0} (made : Text → Bool) (now : ℕ) where
  new_backend-built :
      (cfg : Config) (interval rotate : ℤ) (disk : Disk (JsonlRecord F)) (w : Writer)
      → (new_backend made now cfg interval rotate disk).1 ≡ some w
      → w ≡ built now cfg interval rotate
  unfolding new_backend open_backend
  new_backend-built cfg interval rotate disk w h =
      elim (Bool-cases
        (not (text_eq (dir cfg.db_path) (codes ".")) && not (made (dir cfg.db_path)))) [
          | inl e ↦ absurd (some-ne-none w (sym (rw (new_backend, e) at h)))
          | inr e ↦ elim (Option-cases (open_append cfg.db_path disk)) [
            | inl o ↦ absurd (some-ne-none w (sym (rw (new_backend, open_backend, e, o) at h)))
            | inr (disk', o) ↦
                sym (some-injective _ w (rw (new_backend, open_backend, e, o) at h))
                ∙ rw (open_backend, o) refl
          ]
        ]

  -- A writer that `New` returns has the configured interval, which is at least five seconds, the
  -- configured period of the rotation, at least one rotated file to keep, its file open, and the time
  -- of the call as its start.
  pub new_writer-IsReady :
      (cfg : Config) (disk : Disk (JsonlRecord F)) (w : Writer)
      → (new_writer made now cfg disk).1 ≡ some w
      → IsReady now cfg w
  unfolding new_writer
  new_writer-IsReady cfg disk w h = elim (Option-cases (parse_interval cfg.interval)) [
    | inl e ↦ absurd (some-ne-none w (sym (rw (new_writer, e) at h)))
    | inr (interval, e) ↦ elim (Bool-cases (ltb_ℤ interval (pos (5 * second)))) [
      | inl s ↦ absurd (some-ne-none w (sym (rw (new_writer, e, s) at h)))
      | inr s ↦ elim (Option-cases (rotate_period cfg.rotate)) [
        | inl r ↦ absurd (some-ne-none w (sym (rw (new_writer, e, s, r) at h)))
        | inr (rotate, r) ↦
            let same =
              new_backend-built (with_defaults cfg) interval rotate disk w
                (rw (new_writer, e, s, r) at h) in
            rw same (record {
              interval = e;
              long_enough = s;
              rotates = r;
              keeps_some = defaults-keep cfg;
              opened = refl;
              started = refl;
            })
      ]
    ]
  ]
