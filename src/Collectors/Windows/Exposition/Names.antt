-- ===== src/Collectors/Windows/Exposition/Names.antt =====
-- internal/collectors/disk_windows.go and network_windows.go: the names of the devices.
use limiz.Base.{
  ◌⊎◌, ltb, ◌^◌, Bool-cases, inl, inr, sym, ap, ◌∙◌, ◌≡◌, ◌≢◌, refl, ℕ, Text, List, [], ◌∷◌, ◌++◌,
  Bool, true, false, ◌||◌, leb, ◌==◌, Option, none, some, All, All-append, All-mono, arith, Map,
  codes, if◌then◌else◌, text_eq,
}
use mathlib.Core.Option.{none-ne-some}
use limiz.Strings.Fields.{fields}
use limiz.Strconv.Decimal.{is_digit, shift, read_digits, parse_nat}
use limiz.Floats.{Floats}
use limiz.Collectors.Metric.{Metric}
use limiz.Collectors.Windows.{Value, Powershell, ps_json, get_string}
use limiz.Collectors.Windows.Disk.{
  is_alnum, masked, is_int, disk_number, sanitize_disk_name, disk_metrics, disk_row, disk_rows,
  collect_disks,
}
use limiz.Collectors.Windows.Network.{
  safe_name, interface_metrics, interface_rows, collect_interfaces,
}
use limiz.Collectors.Windows.Exposition.{
  IsPlain, IsReadable, plain-IsReadable, All-unless, All-of_rows,
}

-- letters, digits, and the signs that a name can have
abbrev IsTame : ℕ → Type 0
IsTame c = (c ≢ b'"') × (c ≢ b'\\') × (c ≢ b'\n')

tame-IsPlain : (v : Text) → All IsTame v → IsPlain v
tame-IsPlain v h = record {
  no_quote = All-mono IsTame _ v (λ c t. t.0) h;
  no_backslash = All-mono IsTame _ v (λ c t. t.1) h;
  no_break = All-mono IsTame _ v (λ c t. t.2) h;
}

excludes : (p : ℕ → Bool) (c d : ℕ) → p c ≡ true → p d ≡ false → c ≢ d
excludes p c d h k e = grind arith

-- a test that the three characters fail
passed-IsTame :
    (p : ℕ → Bool) (c : ℕ)
    → p b'"' ≡ false
    → p b'\\' ≡ false
    → p b'\n' ≡ false
    → p c ≡ true
    → IsTame c
passed-IsTame p c q b n h = (excludes p c b'"' h q, excludes p c b'\\' h b, excludes p c b'\n' h n)

or_underscore-IsTame : (b : Bool) (c : ℕ) → (b ≡ true → IsTame c) → IsTame (if b then c else b'_')
or_underscore-IsTame true c h = h refl
or_underscore-IsTame false c h =
    (λ e. omega (arith, e), λ e. omega (arith, e), λ e. omega (arith, e))

masked-IsTame : (name : Text) → All IsTame (masked name)
unfolding masked is_alnum
masked-IsTame [] = tt
masked-IsTame (c ∷ name) = (
  or_underscore-IsTame (is_alnum c) c (passed-IsTame is_alnum c refl refl refl),
  masked-IsTame name,
)

safe_name-IsTame : (name : Text) → All IsTame (safe_name name)
unfolding safe_name is_alnum
safe_name-IsTame [] = tt
safe_name-IsTame (c ∷ name) = (
  or_underscore-IsTame _ c
      (passed-IsTame (λ d. is_alnum d || (d == b'_' || d == b'-')) c refl refl refl),
  safe_name-IsTame name,
)

read_digits-IsTame : (s : Text) (n m : ℕ) → read_digits s n ≡ some m → All IsTame s
unfolding read_digits is_digit
read_digits-IsTame [] n m h = tt
read_digits-IsTame (c ∷ s) n m h = elim (Bool-cases (is_digit c)) [
  | inl d ↦ (
    passed-IsTame is_digit c refl refl refl d,
    read_digits-IsTame s (shift n c) m
        (sym (ap (λ b. if b then read_digits s (shift n c) else none) d) ∙ h),
  )
  | inr d ↦
      absurd (none-ne-some m (sym (ap (λ b. if b then read_digits s (shift n c) else none) d) ∙ h))
]

parse_nat-IsTame : (s : Text) (m : ℕ) → parse_nat s ≡ some m → All IsTame s
unfolding parse_nat
parse_nat-IsTame [] m h = tt
parse_nat-IsTame (c ∷ s) m h = read_digits-IsTame (c ∷ s) 0 m h

if-true :
    (b x y : Bool)
    → (if b then x else y) ≡ true
    → ((b ≡ true) × (x ≡ true)) ⊎ ((b ≡ false) × (y ≡ true))
if-true true x y h = inl (refl, h)
if-true false x y h = inr (refl, h)

-- a number that a bound has been tried on
tried-some :
    (p : ℕ → Bool) (o : Option ℕ)
    → (elim o [ none ↦ false | some n ↦ p n ]) ≡ true
    → (n : ℕ) × (o ≡ some n)
tried-some p none h = ground arith
tried-some p (some n) h = (n, refl)

tried-IsTame :
    (p : ℕ → Bool) (s : Text)
    → (elim (parse_nat s) [ none ↦ false | some n ↦ p n ]) ≡ true
    → All IsTame s
tried-IsTame p s h = let (n, e) = tried-some p (parse_nat s) h in parse_nat-IsTame s n e

signed-IsTame :
    (b : Bool) (c : ℕ) (s : Text)
    → (b ≡ true → IsTame c)
    → All IsTame (if b then s else c ∷ s)
    → All IsTame (c ∷ s)
signed-IsTame true c s h k = (h refl, k)
signed-IsTame false c s h k = k

-- digits behind a sign
is_int-IsTame : (s : Text) → is_int s ≡ true → All IsTame s
unfolding is_int
is_int-IsTame [] h = tt
is_int-IsTame (c ∷ s) h = elim (if-true (c == b'-') _ _ h) [
  | inl (e, k) ↦
      (passed-IsTame (λ d. d == b'-') c refl refl refl e, tried-IsTame (λ n. leb n (2 ^ 63)) s k)
  | inr (_, k) ↦
      signed-IsTame (c == b'+') c s (passed-IsTame (λ d. d == b'+') c refl refl refl)
        (tried-IsTame (λ n. ltb n (2 ^ 63)) (if c == b'+' then s else c ∷ s) k)
]

either-IsTame :
    (b : Bool) (s t : Text)
    → (b ≡ true → All IsTame s)
    → All IsTame t
    → All IsTame (if b then s else t)
either-IsTame true s t hs ht = hs refl
either-IsTame false s t hs ht = ht

disk-IsTame : All IsTame (codes "disk")
disk-IsTame = omega arith

disk_number-IsTame : (name : Text) (parts : List Text) → All IsTame (disk_number name parts)
unfolding disk_number
disk_number-IsTame name [] = masked-IsTame name
disk_number-IsTame name (part ∷ parts) =
    either-IsTame (is_int part) (codes "disk" ++ part) (masked name)
      (λ h. All-append IsTame (codes "disk") part disk-IsTame (is_int-IsTame part h))
      (masked-IsTame name)

module _ (fl : Floats) where
  open fl use {F}

  abbrev pub IsFound : Metric F → Type 0
  IsFound m = All IsReadable m.labels

  device-found : (v : Text) → All IsTame v → All IsReadable ((codes "device", v) ∷ [])
  device-found v h = (plain-IsReadable (codes "device") v (tame-IsPlain v h), tt)

  disk_metrics-IsFound :
      (v : Text) (p : Map (Value F)) → All IsTame v → All IsFound (disk_metrics fl v p)
  unfolding disk_metrics
  disk_metrics-IsFound v p h = let d = device-found v h in (d, (d, (d, (d, (d, (d, (d, tt)))))))

  interface_metrics-IsFound :
      (v : Text) (p : Map (Value F)) → All IsTame v → All IsFound (interface_metrics fl v p)
  unfolding interface_metrics
  interface_metrics-IsFound v p h = let d = device-found v h in (d, (d, (d, (d, (d, (d, tt))))))

  disk_rows-IsFound : (ps : List (Map (Value F))) → All IsFound (disk_rows fl ps)
  unfolding disk_rows disk_row sanitize_disk_name
  disk_rows-IsFound [] = tt
  disk_rows-IsFound (p ∷ ps) =
      let name = get_string p "Name" in
      All-append IsFound _ (disk_rows fl ps)
        (All-unless IsFound (text_eq name (codes "_Total") || text_eq name [])
          (disk_metrics fl (sanitize_disk_name name) p)
          (disk_metrics-IsFound (sanitize_disk_name name) p
            (disk_number-IsTame name (fields name))))
        (disk_rows-IsFound ps)

  interface_rows-IsFound : (ps : List (Map (Value F))) → All IsFound (interface_rows fl ps)
  unfolding interface_rows
  interface_rows-IsFound [] = tt
  interface_rows-IsFound (p ∷ ps) =
      let name = get_string p "Name" in
      All-append IsFound _ (interface_rows fl ps)
        (All-unless IsFound _ _
          (interface_metrics-IsFound (safe_name name) p (safe_name-IsTame name)))
        (interface_rows-IsFound ps)

  -- In the text that `Collect` of the registry writes, a reader of the Prometheus format finds every label
  -- of the Windows collectors of disks and of interfaces as it is, whatever names Windows gives them.
  pub devices-IsFound :
      (ps : Powershell F) → All IsFound (collect_disks fl ps ++ collect_interfaces fl ps)
  unfolding collect_disks collect_interfaces
  devices-IsFound ps =
      All-append IsFound (collect_disks fl ps) (collect_interfaces fl ps)
        (All-of_rows IsFound (disk_rows fl) disk_rows-IsFound (ps_json ps _))
        (All-of_rows IsFound (interface_rows fl) interface_rows-IsFound (ps_json ps _))
