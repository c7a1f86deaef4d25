-- ===== src/Monitor/Reader/Loop.antt =====
-- internal/monitor/store.go: the loop of `readFile`.
use limiz.Base.{
  ℕ, zero, suc, ◌<◌, List, [], ◌∷◌, none, some, select, length, ℤ, ◌≡◌, ◌∙◌, refl, ap, arith,
}
use limiz.Monitor.Record.{Record, Item, entry, mistyped, closing, broken}
use limiz.Monitor.Reader.{in_window, keep, read_loop}

module _ {F : Type 0} where
  -- no syntax error before the place at which the reader stops
  abbrev pub IsHealthy : List (Item F) → Type 0
  IsHealthy [] = Unit
  IsHealthy (closing ∷ items) = Unit
  IsHealthy (broken ∷ items) = ⊥
  IsHealthy (mistyped ∷ items) = IsHealthy items
  IsHealthy (entry r ∷ items) = IsHealthy items

  -- the records in front of that place
  unfoldable pub records : List (Item F) → List (Record F)
  records [] = []
  records (closing ∷ items) = []
  records (broken ∷ items) = []
  records (mistyped ∷ items) = records items
  records (entry r ∷ items) = r ∷ records items

  keep_lem :
      (since : ℤ) (r : Record F) (rs : List (Record F))
      → keep since r (some (select (in_window since) rs)) ≡ some (select (in_window since) (r ∷ rs))
  unfolding keep select
  keep_lem since r rs = ground arith

  -- On a file without a syntax error, the loop ends with the records of the window, in the order of
  -- the file: a round for each item, and one to see the end, are enough.
  pub read_loop-IsHealthy :
      (n : ℕ) (since : ℤ) (items : List (Item F))
      → IsHealthy items
      → length items < n
      → read_loop n since items ≡ some (select (in_window since) (records items))
  unfolding read_loop records
  read_loop-IsHealthy zero since items h k = absurd (omega arith)
  read_loop-IsHealthy (suc n) since [] h k = unfold select in refl
  read_loop-IsHealthy (suc n) since (closing ∷ items) h k = unfold select in refl
  read_loop-IsHealthy (suc n) since (broken ∷ items) h k = absurd h
  read_loop-IsHealthy (suc n) since (mistyped ∷ items) h k =
      read_loop-IsHealthy n since items h (omega arith)
  read_loop-IsHealthy (suc n) since (entry r ∷ items) h k =
      ap (keep since r) (read_loop-IsHealthy n since items h (omega arith))
      ∙ keep_lem since r (records items)

  -- On a file with a syntax error before that place, the loop never ends, however many rounds it runs.
  pub read_loop-broken :
      (n : ℕ) (since : ℤ) (items : List (Item F))
      → ¬ IsHealthy items
      → read_loop n since items ≡ none
  unfolding read_loop keep
  read_loop-broken zero since items h = refl
  read_loop-broken (suc n) since [] h = absurd (h tt)
  read_loop-broken (suc n) since (closing ∷ items) h = absurd (h tt)
  read_loop-broken (suc n) since (broken ∷ items) h = read_loop-broken n since (broken ∷ items) h
  read_loop-broken (suc n) since (mistyped ∷ items) h = read_loop-broken n since items h
  read_loop-broken (suc n) since (entry r ∷ items) h =
      ap (keep since r) (read_loop-broken n since items h)
