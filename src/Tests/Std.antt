-- ===== src/Tests/Std.antt =====
-- Runs of the parts of Go's standard library that the model spells out.
use limiz.Base.{[], none, some, ◌≡◌, refl, codes, text_eq, pos, neg}
use limiz.Time.Duration.{parse_duration}
use limiz.Filepath.{clean, join_path, ext, dir, base}

five_minutes : parse_duration (codes "5m") ≡ some (pos 300_000_000_000)
unfolding parse_duration
five_minutes = refl

mixed : parse_duration (codes "-1h30m0.5s") ≡ some (neg 5_400_500_000_000)
unfolding parse_duration
mixed = refl

refused :
    (parse_duration (codes "5") ≡ none)
    × (parse_duration (codes "7d") ≡ none)
    × (parse_duration (codes ".s") ≡ none)
    × (parse_duration (codes "9223372037s") ≡ none)
unfolding parse_duration
refused = (refl, refl, refl, refl)

clean_runs :
    (clean (codes "/var//lib/./x/../limiz/") ≡ codes "/var/lib/limiz")
    × (clean (codes "../a/../..") ≡ codes "../..")
    × (clean (codes "/..") ≡ codes "/")
    × (clean [] ≡ codes ".")
unfolding clean text_eq
clean_runs = (refl, refl, refl, refl)

names :
    (ext (codes "./a.b/metrics") ≡ [])
    × (ext (codes "m.tar.gz") ≡ codes ".gz")
    × (base (codes "/var/lib/mon.db") ≡ codes "mon.db")
    × (dir (codes "/var/lib/mon.db") ≡ codes "/var/lib")
    × (dir (codes "mon.db") ≡ codes ".")
    × (join_path (codes ".") (codes "m.db") ≡ codes "m.db")
unfolding ext base dir join_path text_eq
names = (refl, refl, refl, refl, refl, refl)
