-- ===== src/Collectors/Disk/Partitions.antt =====
-- `isPartition` of internal/collectors/disk_linux.go on the names that Linux gives to block devices.
use limiz.Base.{
  ℕ, ◌≡◌, ◌≢◌, true, false, ◌&&◌, [], ◌∷◌, ◌++◌, ◌+◌, ◌<◌, reverse, arith, Text, ltb, refl, ◌∙◌,
  sym, ap, if◌then◌else◌, lt→ltb, length-append, length, All, All-append, codes, append_assoc,
}
use mathlib.Core.List.{reverse-append, reverse-reverse, reverse-cons}
use limiz.Strconv.Decimal.{is_digit, IsDigit}
use limiz.Strings.Affix.{contains, has_prefix, cut_last-append, Lacks}
use limiz.Collectors.Disk.{is_partition, last_place, is_lower, ends_in_digit, letter_loop}

reverse-All : (n : Text) → All IsDigit n → All IsDigit (reverse n)
reverse-All [] h = h
reverse-All (d ∷ n) h =
    rw reverse-cons (All-append IsDigit (reverse n) (d ∷ []) (reverse-All n h.1) (h.0, tt))

reverse-ne-nil : (n : Text) → n ≢ [] → reverse n ≢ []
reverse-ne-nil n ne e = ne (sym (reverse-reverse n) ∙ ap reverse e)

letter_loop-digits : (n r : Text) → All IsDigit n → letter_loop (n ++ r) ≡ letter_loop r
unfolding letter_loop is_digit
letter_loop-digits [] r h = refl
letter_loop-digits (d ∷ n) r h = ground (arith, letter_loop-digits n r h.1)

ends_in_digit-digits : (n r : Text) → n ≢ [] → All IsDigit n → ends_in_digit (n ++ r) ≡ true
unfolding ends_in_digit is_digit
ends_in_digit-digits [] r ne h = ground arith
ends_in_digit-digits (d ∷ n) r ne h = ground (arith, h.0)

is_partition-eq :
    (dev : Text)
    → contains (codes "nvme") dev ≡ false
    → is_partition dev ≡ (if ends_in_digit (reverse dev) then letter_loop (reverse dev) else false)
unfolding is_partition ends_in_digit
is_partition-eq [] h = refl
is_partition-eq (c ∷ s) h = rw h refl

-- the name read from its end
reverse-name : (stem n : Text) (c : ℕ) → reverse (stem ++ c ∷ n) ≡ reverse n ++ c ∷ reverse stem
reverse-name stem n c = rw (reverse-append, reverse-cons, append_assoc) refl

ends_in_digit-name :
    (stem n : Text) (c : ℕ)
    → n ≢ []
    → All IsDigit n
    → ends_in_digit (reverse (stem ++ c ∷ n)) ≡ true
ends_in_digit-name stem n c ne h =
    rw reverse-name
      (ends_in_digit-digits (reverse n) (c ∷ reverse stem) (reverse-ne-nil n ne) (reverse-All n h))

-- A device that is no NVMe device and ends in a number is a partition exactly when the character
-- before the number is a lower-case letter.
pub is_partition-is_lower :
    (stem n : Text) (c : ℕ)
    → contains (codes "nvme") (stem ++ c ∷ n) ≡ false
    → is_digit c ≡ false
    → n ≢ []
    → All IsDigit n
    → is_partition (stem ++ c ∷ n) ≡ is_lower c
unfolding letter_loop
is_partition-is_lower stem n c hn hc ne h =
    let r = reverse-ne-nil n ne in
    is_partition-eq (stem ++ c ∷ n) hn
    ∙ rw
        (
          reverse-name,
          ends_in_digit-digits (reverse n) (c ∷ reverse stem) r (reverse-All n h),
          letter_loop-digits (reverse n) (c ∷ reverse stem) (reverse-All n h),
          hc,
        )
        refl

contains-Lacks : (c : ℕ) (s : Text) → Lacks c s → contains (c ∷ []) s ≡ false
unfolding contains has_prefix
contains-Lacks c [] h = refl
contains-Lacks c (d ∷ s) h = ground (arith, h.0, contains-Lacks c s h.1)

contains-append : (c : ℕ) (s t : Text) → contains (c ∷ []) (s ++ c ∷ t) ≡ true
unfolding contains has_prefix
contains-append c [] t = ground arith
contains-append c (d ∷ s) t = ground (arith, contains-append c s t)

digits-Lacks : (c : ℕ) (n : Text) → b'9' < c → All IsDigit n → Lacks c n
digits-Lacks c [] lt h = tt
digits-Lacks c (d ∷ n) lt h = (omega (arith, h.0, lt), digits-Lacks c n lt h.1)

abbrev pub nvme_disk : Text → Text → Text
nvme_disk a b = codes "nvme" ++ a ++ b'n' ∷ b

nvme_disk-Lacks : (a b : Text) → All IsDigit a → All IsDigit b → Lacks b'p' (nvme_disk a b)
nvme_disk-Lacks a b ha hb =
    All-append (λ d. d ≢ b'p') (codes "nvme") (a ++ b'n' ∷ b)
      (omega arith, (omega arith, (omega arith, (omega arith, tt))))
      (All-append (λ d. d ≢ b'p') a (b'n' ∷ b) (digits-Lacks b'p' a (omega arith) ha)
        (omega arith, digits-Lacks b'p' b (omega arith) hb))

is_partition-nvme :
    (dev : Text)
    → contains (codes "nvme") dev ≡ true
    → is_partition dev ≡ (
        contains (codes "p") dev
        && ends_in_digit (reverse dev)
        && ltb (last_place b'n' dev) (last_place b'p' dev))
unfolding is_partition contains
is_partition-nvme [] h = ground (arith, h)
is_partition-nvme (c ∷ s) h = rw h refl

last_place-append : (c : ℕ) (s t : Text) → Lacks c t → last_place c (s ++ c ∷ t) ≡ length s + 1
unfolding last_place
last_place-append c s t h = rw (last_place, cut_last-append c s t h) refl

nvme_disk-append-n :
    (a b c : Text) → nvme_disk a b ++ b'p' ∷ c ≡ (codes "nvme" ++ a) ++ b'n' ∷ (b ++ b'p' ∷ c)
nvme_disk-append-n a b c = append_assoc (codes "nvme" ++ a) (b'n' ∷ b) (b'p' ∷ c)

places :
    (a b c : Text)
    → All IsDigit b
    → All IsDigit c
    → ltb
        (last_place b'n' (nvme_disk a b ++ b'p' ∷ c))
        (last_place b'p' (nvme_disk a b ++ b'p' ∷ c))
      ≡ true
places a b c hb hc =
    let disk = nvme_disk a b in
    let lacks =
      All-append (λ d. d ≢ b'n') b (b'p' ∷ c) (digits-Lacks b'n' b (omega arith) hb)
        (omega arith, digits-Lacks b'n' c (omega arith) hc) in
    let at_n : last_place b'n' (disk ++ b'p' ∷ c) ≡ length (codes "nvme" ++ a) + 1 =
      ap (last_place b'n') (nvme_disk-append-n a b c)
      ∙ last_place-append b'n' (codes "nvme" ++ a) (b ++ b'p' ∷ c) lacks in
    let at_p = last_place-append b'p' disk c (digits-Lacks b'p' c (omega arith) hc) in
    lt→ltb (last_place b'n' (disk ++ b'p' ∷ c)) (last_place b'p' (disk ++ b'p' ∷ c))
      (omega (arith, at_n, at_p, length-append a (b'n' ∷ b)))

-- An NVMe namespace, nvme<a>n<b>, is not a partition, and its partitions, nvme<a>n<b>p<c>, are,
-- where a, b and c are digits and c is not empty.
pub is_partition-nvme_disk :
    (a b c : Text)
    → All IsDigit a
    → All IsDigit b
    → All IsDigit c
    → c ≢ []
    → (is_partition (nvme_disk a b) ≡ false) × (is_partition (nvme_disk a b ++ b'p' ∷ c) ≡ true)
unfolding contains has_prefix
is_partition-nvme_disk a b c ha hb hc ne =
    let disk = nvme_disk a b in
    (
      is_partition-nvme disk refl ∙ rw (contains-Lacks b'p' disk (nvme_disk-Lacks a b ha hb)) refl,
      is_partition-nvme (disk ++ b'p' ∷ c) refl
          ∙ rw (contains-append b'p' disk c)
              (rw (ends_in_digit-name disk c b'p' ne hc) (places a b c hb hc)),
    )
