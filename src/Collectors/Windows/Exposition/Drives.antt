-- ===== src/Collectors/Windows/Exposition/Drives.antt =====
-- internal/collectors/filesystem_windows.go: the mount point of a drive, which ends in a backslash.
use limiz.Base.{
  ◌≡◌, ◌≢◌, append_assoc, refl, sym, ap, ◌∙◌, ℕ, ◌+◌, ◌<◌, Text, List, [], ◌∷◌, ◌++◌, length,
  length-append, Bool, true, false, Option, none, some, All, All-append, arith, Map, codes,
  if◌then◌else◌,
}
use limiz.Floats.{Floats}
use limiz.Collectors.Metric.{Metric}
use limiz.Collectors.Windows.{Value, Powershell, ps_json, get_string}
use limiz.Collectors.Windows.Filesystem.{drive_labels, drive_metrics, drive_rows, collect_drives}
use limiz.Collectors.Windows.Exposition.{
  unescaped, prepend, read_from, read_value, IsReadable, drop-label_part, All-unless, All-of_rows,
}

-- what is read is shorter than the text
unfoldable IsShorter : Text → Option (Text × Text) → Type 0
IsShorter s r = (v rest : Text) → r ≡ some (v, rest) → length v + length rest < length s

prepend-IsShorter :
    (c d : ℕ) (s : Text) (r : Option (Text × Text))
    → IsShorter s r
    → IsShorter (d ∷ s) (prepend c r)
unfolding prepend IsShorter
prepend-IsShorter c d s none h v rest e = ground arith
prepend-IsShorter c d s (some (w, t)) h v rest e = grind (arith, h w t refl)

if-IsShorter :
    (s : Text) (b : Bool) (x y : Option (Text × Text))
    → IsShorter s x
    → IsShorter s y
    → IsShorter s (if b then x else y)
if-IsShorter s true x y hx hy = hx
if-IsShorter s false x y hx hy = hy

none-IsShorter : (s : Text) → IsShorter s none
unfolding IsShorter
none-IsShorter s v rest e = ground arith

ended-IsShorter : (c : ℕ) (s : Text) → IsShorter (c ∷ s) (some ([], s))
unfolding IsShorter
ended-IsShorter c s v rest e = grind arith

later-IsShorter :
    (c : ℕ) (s : Text) (r : Option (Text × Text)) → IsShorter s r → IsShorter (c ∷ s) r
unfolding IsShorter
later-IsShorter c s r h v rest e = omega (arith, h v rest e)

escape-IsShorter :
    (c : ℕ) (s : Text) (u : Option ℕ) (r : Option (Text × Text))
    → IsShorter s r
    → IsShorter (c ∷ s) (elim u [ none ↦ none | some e ↦ prepend e r ])
escape-IsShorter c s none r h = none-IsShorter (c ∷ s)
escape-IsShorter c s (some e) r h = prepend-IsShorter e c s r h

read_from-IsShorter : (escaped : Bool) (s : Text) → IsShorter s (read_from escaped s)
unfolding read_from
read_from-IsShorter escaped [] = none-IsShorter []
read_from-IsShorter false (c ∷ s) = if-IsShorter (c ∷ s) _ _ _ (ended-IsShorter c s) (
    if-IsShorter (c ∷ s) _ _ _ (none-IsShorter (c ∷ s)) (
      if-IsShorter (c ∷ s) _ _ _ (later-IsShorter c s _ (read_from-IsShorter true s))
        (prepend-IsShorter c c s _ (read_from-IsShorter false s))))
read_from-IsShorter true (c ∷ s) =
    escape-IsShorter c s (unescaped c) _ (read_from-IsShorter false s)

prepend-back :
    (c : ℕ) (v rest : Text) (r : Option (Text × Text))
    → prepend c r ≡ some (c ∷ v, rest)
    → r ≡ some (v, rest)
unfolding prepend
prepend-back c v rest none e = ground arith
prepend-back c v rest (some (w, t)) e = grind arith

prepend-head :
    (c d : ℕ) (v rest : Text) (r : Option (Text × Text)) → prepend c r ≡ some (d ∷ v, rest) → c ≡ d
unfolding prepend
prepend-head c d v rest none e = ground arith
prepend-head c d v rest (some (w, t)) e = grind arith

-- an escape has taken a character too many
escaped-too_short :
    (s rest : Text) (c : ℕ)
    → read_from true (s ++ b'\\' ∷ b'"' ∷ rest) ≢ some (c ∷ (s ++ b'\\' ∷ []), rest)
unfolding IsShorter
escaped-too_short s rest c e = absurd (
    omega (
      arith,
      read_from-IsShorter true (s ++ b'\\' ∷ b'"' ∷ rest) (c ∷ (s ++ b'\\' ∷ [])) rest e,
      length-append s (b'\\' ∷ b'"' ∷ rest),
      length-append s (b'\\' ∷ []),
    ))

if-ne : (b : Bool) (x y z : Option (Text × Text)) → x ≢ z → y ≢ z → (if b then x else y) ≢ z
if-ne true x y z hx hy = hx
if-ne false x y z hx hy = hy

ended-ne :
    (c : ℕ) (v rest t : Text) → ◌≢◌ {A = Option (Text × Text)} (some ([], t)) (some (c ∷ v, rest))
ended-ne c v rest t e = grind arith

none-ne : (p : Text × Text) → none ≢ some p
none-ne p e = grind arith

-- a value that ends in a backslash is not read as it is
backslash-lost :
    (s rest : Text) → read_from false (s ++ b'\\' ∷ b'"' ∷ rest) ≢ some (s ++ b'\\' ∷ [], rest)
unfolding read_from unescaped
backslash-lost [] rest =
    λ e. absurd (omega (arith, prepend-head b'"' b'\\' [] rest (read_from false rest) e))
backslash-lost (c ∷ s) rest =
    if-ne _ _ _ _ (ended-ne c (s ++ b'\\' ∷ []) rest (s ++ b'\\' ∷ b'"' ∷ rest)) (
      if-ne _ _ _ _ (none-ne (c ∷ (s ++ b'\\' ∷ []), rest)) (
        if-ne _ _ _ _ (escaped-too_short s rest c)
          (λ e. backslash-lost s rest (prepend-back c (s ++ b'\\' ∷ []) rest _ e))))

backslash-not-IsReadable : (k s : Text) → IsReadable (k, s ++ b'\\' ∷ []) → ⊥
unfolding IsReadable read_value
backslash-not-IsReadable k s h = backslash-lost s [] (
    ap (read_from false)
      (sym (append_assoc s (b'\\' ∷ []) (b'"' ∷ [])) ∙ sym (drop-label_part k (s ++ b'\\' ∷ []) []))
    ∙ h [])

module _ (fl : Floats) where
  open fl use {F}

  abbrev pub IsLost : Metric F → Type 0
  IsLost m = ¬ All IsReadable m.labels

  drive_labels-IsLost : (d : Map (Value F)) → ¬ All IsReadable (drive_labels fl d)
  unfolding drive_labels
  drive_labels-IsLost d h =
      backslash-not-IsReadable (codes "mountpoint") (get_string d "DeviceID") h.1.0

  drive_metrics-IsLost : (d : Map (Value F)) → All IsLost (drive_metrics fl d)
  unfolding drive_metrics
  drive_metrics-IsLost d =
      (drive_labels-IsLost d, (drive_labels-IsLost d, (drive_labels-IsLost d, tt)))

  drive_rows-IsLost : (ds : List (Map (Value F))) → All IsLost (drive_rows fl ds)
  unfolding drive_rows
  drive_rows-IsLost [] = tt
  drive_rows-IsLost (d ∷ ds) =
      All-append IsLost _ (drive_rows fl ds)
        (All-unless IsLost _ (drive_metrics fl d) (drive_metrics-IsLost d)) (drive_rows-IsLost ds)

  -- In the text that `Collect` of the registry writes, no metric of the Windows filesystem collector has
  -- labels that a reader of the Prometheus format finds as they are: the mount point ends in a backslash,
  -- which takes its closing quote away.
  pub collect_drives-IsLost : (ps : Powershell F) → All IsLost (collect_drives fl ps)
  unfolding collect_drives
  collect_drives-IsLost ps = All-of_rows IsLost (drive_rows fl) drive_rows-IsLost (ps_json ps _)
