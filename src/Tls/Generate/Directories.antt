-- ===== src/Tls/Generate/Directories.antt =====
-- internal/tlsutil/generate.go: `WritableCertDir`, with the default directories of the systems that are not
-- Windows.
use limiz.Base.{
  Text, List, [], ◌∷◌, ◌++◌, Bool, true, false, ◌||◌, Option, none, some, if◌then◌else◌, codes,
  text_eq,
}
use limiz.Disk.{delete}
use limiz.Filepath.{dir, join_path}
use limiz.Tls.Generate.{Fs, mkdir_all, open_truncated, write_file, key_mode}

-- the directories, of the executable's path if there is one
unfoldable pub default_cert_dirs : Option Text → List Text
default_cert_dirs exe =
    (codes "/etc/limiz/tls" ∷ codes "/usr/lib/limiz/tls" ∷ codes "/var/lib/limiz/tls" ∷ [])
    ++ elim exe [ none ↦ [] | some path ↦ join_path (dir path) (codes "tls") ∷ [] ]

unfoldable pub is_seen : Text → List Text → Bool
is_seen d [] = false
is_seen d (s ∷ seen) = text_eq s d || is_seen d seen

-- the candidates without the empty ones and those that have been seen
unfoldable pub unique : List Text → List Text → List Text
unfolding is_seen
unique seen [] = []
unique seen (d ∷ ds) =
    let skipped = text_eq d [] || is_seen d seen in
    let rest = unique (if skipped then seen else d ∷ seen) ds in if skipped then rest else d ∷ rest

unfoldable pub test_file : Text → Text
test_file d = join_path d (codes ".write-test")

-- `os.Remove`, whose error is not read
unfoldable pub removed : Text → Fs → Fs
removed path fs = if fs.is_locked path then fs else record fs { files = delete path fs.files }

-- `os.MkdirAll`, `os.WriteFile` of an empty file, and `os.Remove`: whether the first two succeed
unfoldable pub try_dir : Text → Fs → Fs × Bool
unfolding mkdir_all open_truncated write_file test_file removed
try_dir d fs = elim (mkdir_all d fs) [
  | none ↦ (fs, false)
  | some fs' ↦ elim (open_truncated (test_file d) key_mode fs') [
    | none ↦ (fs', false)
    | some fs'' ↦ (removed (test_file d) (write_file (test_file d) [] fs''), true)
  ]
]

-- the return from the loop, or the next candidate
unfoldable pub found_or : Text → (Fs → Fs × Option Text) → Fs × Bool → Fs × Option Text
found_or d next (fs, true) = (fs, some d)
found_or d next (fs, false) = next fs

-- none for the error
unfoldable pub first_writable : List Text → Fs → Fs × Option Text
unfolding try_dir found_or
first_writable [] fs = (fs, none)
first_writable (d ∷ ds) fs = found_or d (first_writable ds) (try_dir d fs)

unfoldable pub writable_cert_dir : Option Text → List Text → Fs → Fs × Option Text
unfolding default_cert_dirs unique first_writable
writable_cert_dir exe extra_dirs fs =
    first_writable (unique [] (default_cert_dirs exe ++ extra_dirs)) fs
