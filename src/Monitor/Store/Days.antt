-- ===== src/Monitor/Store/Days.antt =====
-- internal/monitor/store.go: the log over any sequence of writes.
use limiz.Base.{
  Text, List, [], ◌∷◌, ◌++◌, Bool, true, false, some, if◌then◌else◌, text_eq, text_eq→eq,
  text_eq→ne, text_eq_refl, lookup, insert, lookup-insert, All, ◌≡◌, ◌∙◌, refl, ap, Bool-cases, inl,
  inr,
}
use limiz.Disk.{Disk}
use limiz.Monitor.Record.{Record, Item, entry}
use limiz.Monitor.Store.{Store, write}
use limiz.Monitor.Store.Rotation.{write-same-day, write-next_day}

module _ {F : Type 0} where
  -- the day and the lines of the log after writes of records on given days: a new day starts over
  unfoldable pub log_of : Text × List (Item F) → List (Text × Record F) → Text × List (Item F)
  unfolding text_eq
  log_of st [] = st
  log_of (tag, lines) ((day, r) ∷ ws) =
      let same = log_of (tag, lines ++ entry r ∷ []) ws in
      let new = log_of (day, entry r ∷ []) ws in if text_eq day tag then same else new

  module _ (is_finite : F → Bool) where
    unfoldable pub write_all :
        List (Text × Record F) → Store × Disk (Item F) → Store × Disk (Item F)
    write_all [] st = st
    write_all ((day, r) ∷ ws) st = write_all ws (write is_finite day r st)

    -- Over any sequence of writes on a disk where nothing is locked, of records that can be encoded, the
    -- store's tag is the day of the last write, and the log holds the records since that day began, in
    -- their order, behind the lines of before if it is still the first day.
    pub write_all_lem :
        (ws : List (Text × Record F)) (s : Store) (disk : Disk (Item F)) (lines : List (Item F))
        → s.is_open ≡ true
        → lookup s.path disk.files ≡ some lines
        → ((p : Text) → disk.is_locked p ≡ false)
        → All (λ w. is_finite w.1.duration_ms ≡ true) ws
        → ((write_all ws (s, disk)).0.day_tag ≡ (log_of (s.day_tag, lines) ws).0)
          × (lookup s.path (write_all ws (s, disk)).1.files ≡ some (log_of (s.day_tag, lines) ws).1)
    unfolding write_all log_of
    write_all_lem [] s disk lines o h free f = (refl, h)
    write_all_lem ((day, r) ∷ ws) s disk lines o h free f =
        elim (Bool-cases (text_eq day s.day_tag)) [
          | inl e ↦
              let grown = lines ++ entry r ∷ [] in
              let next : Disk (Item F) = record disk { files = insert s.path grown disk.files } in
              let self : lookup s.path next.files ≡ some grown =
                lookup-insert s.path s.path grown disk.files ∙ rw (text_eq_refl s.path) refl in
              let eq : write is_finite day r (s, disk) ≡ (s, next) =
                rw (text_eq→eq day s.day_tag e) (write-same-day is_finite r f.0 s disk lines o h) in
              rw (write_all, log_of, e, eq) (write_all_lem ws s next grown o self free f.1)
          | inr e ↦
              let (next, eq, self, locks) =
                write-next_day is_finite r f.0 s disk lines day (text_eq→ne day s.day_tag e) h
                  (free _) (free _) in
              rw (write_all, log_of, e, eq)
                (write_all_lem ws (record s { is_open = true; day_tag = day }) next (entry r ∷ [])
                  refl self (λ p. ap (λ l. l p) locks ∙ free p) f.1)
        ]
