-- ===== src/Tests/Monitor.antt =====
-- internal/monitor at concrete inputs.
use limiz.Base.{
  IsOrder-by, IsOrderOn, ◌≤◌, ◌+◌, ltb_ℤ-IsOrder, ltb_ℤ, insertion_sort-IsSort, false, IsSorted,
  text_less, ℕ, ◌<◌, ◌*◌, Text, List, [], ◌∷◌, ◌++◌, Bool, true, none, some, codes, ℤ, pos, lookup,
  text_eq, text_eq→ne, length, count_of, IsOrder, insertion_sort, select, SameElements, All, min,
  ◌⊎◌, ◌≡◌, refl, arith, ltb, Bool-cases, sym, inl, inr, not, ◌/◌, ◌&&◌, if◌then◌else◌,
}
use mathlib.Core.Option.{some-injective, some-ne-none}
use mathlib.Core.Path.{subst}
use limiz.Disk.{Disk, read_dir, is_among}
use limiz.Monitor.Record.{Record, Item, entry, mistyped, broken, record_metric}
use limiz.Monitor.Store.{clean_old, Store, RotatedFile, rotated_name, write}
use limiz.Monitor.Store.Retention.{found, paths, clean_old-keeps_newest}
use limiz.Monitor.Store.Rotation.{write-new-day}
use limiz.Monitor.Reader.{read_loop, read_records, returned, by_time}
use limiz.Monitor.Reader.Loop.{IsHealthy, records, read_loop-IsHealthy, read_loop-broken}
use limiz.Monitor.Reader.Complete.{read_records_lem, log_records, path_of}
use limiz.Monitor.Summary.{stats, is_metric, is_data, is_error}
use limiz.Monitor.Summary.Percentile.{stats-p95}
use limiz.Monitor.Hourly.{HourBucket, bucket_records}
use limiz.Monitor.Hourly.Counts.{bucket_records_lem, bucket, falls_in}
use limiz.Tests.Numbers.{naturals}

abbrev pub metric : ℕ → ℕ → Text → Record ℕ
metric t d e = record { timestamp = pos t; type = record_metric; duration_ms = d; error = e }

abbrev pub log_path : Text
log_path = codes "/v/mon.db"

abbrev pub store : Store
store = record { path = log_path; is_open = true; day_tag = codes "2024-02-29" }

abbrev pub disk : Disk (Item ℕ)
disk = record {
  files =
      (codes "/v/mon-2024-02-27.db", entry (metric 1 4 []) ∷ [])
      ∷ (codes "/v/mon-2024-02-28.db", entry (metric 5 6 []) ∷ [])
      ∷ (codes "/v/mon-old.db", [])
      ∷ (log_path, entry (metric 9 7 (codes "late")) ∷ [])
      ∷ [];
  is_locked = λ p. false;
  has_dir = λ d. true;
}

abbrev pub finite : ℕ → Bool
finite n = true

-- the first write of the next day drops the oldest of the three rotated files
rotation : write finite (codes "2024-03-01") (metric 20 8 []) (store, disk) ≡ (
  record store { day_tag = codes "2024-03-01" },
  record disk {
    files =
        (codes "/v/mon-2024-02-28.db", entry (metric 5 6 []) ∷ [])
        ∷ (codes "/v/mon-old.db", [])
        ∷ (codes "/v/mon-2024-02-29.db", entry (metric 9 7 (codes "late")) ∷ [])
        ∷ (log_path, entry (metric 20 8 []) ∷ [])
        ∷ [];
  },
)
unfolding write
rotation = refl

abbrev names : List Text
names =
    codes "mon-2024-02-27.db" ∷ codes "mon-2024-02-28.db" ∷ codes "mon-old.db" ∷ codes "mon.db" ∷ []

-- three rotated files, of which one goes
abbrev three_days : Disk (Item ℕ)
three_days = record disk {
  files =
      (codes "/v/mon-2024-02-27.db", [])
      ∷ (codes "/v/mon-2024-02-29.db", [])
      ∷ (codes "/v/mon-2024-02-28.db", [])
      ∷ (log_path, [])
      ∷ [];
}

abbrev dated : List Text
dated =
    codes "mon-2024-02-27.db"
    ∷ codes "mon-2024-02-28.db"
    ∷ codes "mon-2024-02-29.db"
    ∷ codes "mon.db"
    ∷ []

clean_old-keeps_newest_example :
    (gone : List RotatedFile) × (stay : List RotatedFile) × SameElements
      (gone ++ stay)
      (found log_path dated)
    × (length stay ≡ min 2 (length (found log_path dated)))
    × All (λ old. All (λ new. text_less new.date old.date ≡ false) stay) gone
    × ((q : Text)
        → lookup q (clean_old log_path three_days).files ≡ (
            if (if is_among q (paths gone) then not (three_days.is_locked q) else false)
            then none
            else lookup q three_days.files))
clean_old-keeps_newest_example =
    clean_old-keeps_newest log_path dated three_days (unfold read_dir in refl)

oldest_gone :
    (clean_old log_path three_days).files
    ≡ (codes "/v/mon-2024-02-29.db", []) ∷ (codes "/v/mon-2024-02-28.db", []) ∷ (log_path, []) ∷ []
unfolding clean_old
oldest_gone = refl

abbrev next_morning : Store × Disk (Item ℕ)
next_morning = write finite (codes "2024-03-01") (metric 20 8 []) (store, disk)

write-new-day_example :
    (next_morning.0 ≡ record store { is_open = true; day_tag = codes "2024-03-01" })
    × (lookup log_path next_morning.1.files ≡ some (entry (metric 20 8 []) ∷ []))
    × ((lookup (rotated_name log_path store.day_tag) next_morning.1.files
          ≡ some (entry (metric 9 7 (codes "late")) ∷ []))
        ⊎ (lookup (rotated_name log_path store.day_tag) next_morning.1.files ≡ none))
write-new-day_example =
    write-new-day finite (metric 20 8 []) refl store disk (entry (metric 9 7 (codes "late")) ∷ [])
      (codes "2024-03-01") (text_eq→ne (codes "2024-03-01") store.day_tag (unfold text_eq in refl))
      (unfold lookup text_eq in refl) refl refl

abbrev items : List (Item ℕ)
items = entry (metric 1 4 []) ∷ mistyped ∷ entry (metric 9 7 []) ∷ []

read_loop-IsHealthy_example :
    read_loop 4 (pos 5) items ≡ some (select (λ r. not (ltb_ℤ r.timestamp (pos 5))) (records items))
read_loop-IsHealthy_example = read_loop-IsHealthy 4 (pos 5) items tt (omega arith)

read_loop-broken_example : read_loop 1000 (pos 5) (entry (metric 9 7 []) ∷ broken ∷ []) ≡ none
read_loop-broken_example =
    read_loop-broken 1000 (pos 5) (entry (metric 9 7 []) ∷ broken ∷ []) (λ h. h)

abbrev nothing_denied : Text → Bool
nothing_denied p = false

abbrev log : List (Record ℕ)
log = metric 1 4 [] ∷ metric 2 9 (codes "late") ∷ metric 3 5 [] ∷ []

-- the large ones are taken for no numbers
abbrev is_number : ℕ → Bool
is_number n = ltb n 1000

ltb-IsOrderOn : IsOrderOn (λ n. is_number n ≡ true) ltb
ltb-IsOrderOn = record { asym = λ a b p q h. ground arith; trans = λ a b c p q r h k. ground arith }

stats-p95_example :
    (p : ℕ) × ((stats naturals 1000000 0 log).p95 ≡ some p)
    × (length log * 19 / 20 < count_of (λ d. not (ltb p d)) (4 ∷ 9 ∷ 5 ∷ []))
    × (length log ≤ length log * 19 / 20 + count_of (λ d. not (ltb d p)) (4 ∷ 9 ∷ 5 ∷ []))
stats-p95_example =
    stats-p95 naturals 1000000 0 is_number ltb-IsOrderOn log (refl, (refl, (refl, tt)))
      (omega arith)

abbrev hour_of : ℤ → Text
hour_of t = codes "10:00"

abbrev at_ten : HourBucket ℕ
at_ten = bucket naturals 0 hour_of (codes "10:00") (bucket_records naturals 0 hour_of log).buckets

bucket_records_lem_example :
    (at_ten.metric_count
      ≡ count_of (λ r. falls_in naturals 0 hour_of (codes "10:00") r && is_metric r) log)
    × (at_ten.data_count
        ≡ count_of (λ r. falls_in naturals 0 hour_of (codes "10:00") r && is_data r) log)
    × (at_ten.errors
        ≡ count_of (λ r. falls_in naturals 0 hour_of (codes "10:00") r && is_error r) log)
bucket_records_lem_example = bucket_records_lem naturals 0 hour_of (codes "10:00") log

-- a disk with one log of four records
abbrev one_log : Disk (Item ℕ)
one_log = record disk { files = (log_path, items) ∷ [] }

only : (q : Text) (xs : List (Item ℕ)) → lookup q one_log.files ≡ some xs → items ≡ xs
unfolding lookup
only q xs h = elim (Bool-cases (text_eq log_path q)) [
  | inl e ↦ some-injective items xs (rw (lookup, e) at h)
  | inr e ↦ absurd (some-ne-none xs (sym (rw (lookup, e) at h)))
]

healthy : (q : Text) (xs : List (Item ℕ)) → lookup q one_log.files ≡ some xs → IsHealthy xs
healthy q xs h = subst IsHealthy (only q xs h) tt

enough : (q : Text) (xs : List (Item ℕ)) → lookup q one_log.files ≡ some xs → length xs < 10
enough q xs h = subst (λ ys. length ys < 10) (only q xs h) (omega arith)

by_time-IsOrder : IsOrder (by_time {F = ℕ})
unfolding by_time
by_time-IsOrder = IsOrder-by ltb_ℤ (λ (r : Record ℕ). r.timestamp) ltb_ℤ-IsOrder

read_records_lem_example :
    (rs : List (Record ℕ)) × (read_records
        (insertion_sort by_time)
        nothing_denied
        10
        (pos 5)
        one_log
        log_path
      ≡ some (returned rs))
    × SameElements rs (log_records (pos 5) one_log (path_of log_path))
    × IsSorted by_time rs
    × All (λ r. ltb_ℤ r.timestamp (pos 5) ≡ false) rs
read_records_lem_example =
    read_records_lem (insertion_sort by_time) nothing_denied 10 (pos 5) one_log (λ q. refl) healthy
      enough (insertion_sort-IsSort by_time by_time-IsOrder) log_path

reads :
    read_records (insertion_sort by_time) nothing_denied 10 (pos 5) one_log log_path
    ≡ some (returned (metric 9 7 [] ∷ []))
unfolding read_records
reads = refl
