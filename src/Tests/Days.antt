-- ===== src/Tests/Days.antt =====
-- The log of internal/monitor over several days.
use limiz.Base.{ℕ, Text, List, [], ◌∷◌, some, codes, lookup, text_eq, ◌≡◌, refl}
use limiz.Monitor.Record.{Record, entry}
use limiz.Monitor.Store.Days.{log_of, write_all, write_all_lem}
use limiz.Tests.Monitor.{metric, store, disk, log_path, finite}

abbrev writes : List (Text × Record ℕ)
writes =
    (codes "2024-02-29", metric 10 1 [])
    ∷ (codes "2024-03-01", metric 20 2 [])
    ∷ (codes "2024-03-01", metric 30 3 [])
    ∷ []

write_all_lem_example :
    ((write_all finite writes (store, disk)).0.day_tag
      ≡ (log_of (store.day_tag, entry (metric 9 7 (codes "late")) ∷ []) writes).0)
    × (lookup log_path (write_all finite writes (store, disk)).1.files
        ≡ some (log_of (store.day_tag, entry (metric 9 7 (codes "late")) ∷ []) writes).1)
write_all_lem_example =
    write_all_lem finite writes store disk (entry (metric 9 7 (codes "late")) ∷ []) refl
      (unfold lookup text_eq in refl) (λ p. refl) (refl, (refl, (refl, tt)))

second_day :
    (log_of (store.day_tag, []) writes).1 ≡ entry (metric 20 2 []) ∷ entry (metric 30 3 []) ∷ []
unfolding log_of
second_day = refl
