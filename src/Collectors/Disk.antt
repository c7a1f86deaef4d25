-- ===== src/Collectors/Disk.antt =====
-- internal/collectors/disk_linux.go: which block devices count as partitions, and the metrics of the
-- others. `/proc/diskstats` is its text, none where it cannot be opened.
pub mod Types
pub mod Partitions
use limiz.Base.{
  ℕ, List, Option, String, get_elem?, ◌≡◌, ◌≢◌, Bool, true, false, ◌&&◌, [], ◌∷◌, ◌++◌, ◌+◌, ◌<◌,
  reverse, arith, Text, leb, ltb, refl, ◌∙◌, sym, ap, Bool-cases, inl, inr, if◌then◌else◌, lt→ltb,
  length-append, length, All, All-append, none, some, codes, append_assoc,
}
use mathlib.Core.List.{reverse-append, reverse-reverse, reverse-cons}
use limiz.Strconv.Decimal.{is_digit, IsDigit}
use limiz.Strings.Affix.{contains, has_prefix, cut_last, cut_last-append, Lacks}
use limiz.Strings.Fields.{fields}
use limiz.Strings.Lines.{scan_lines}
use limiz.Floats.{Floats}
use limiz.Collectors.Metric.{Metric, gauge, counter}

-- `strings.LastIndex(dev, c)`, plus one: zero where the character does not occur.
unfoldable pub last_place : ℕ → Text → ℕ
unfolding cut_last
last_place c dev = elim (cut_last c dev) [ none ↦ 0 | some (a, b) ↦ length a + 1 ]

unfoldable pub is_lower : ℕ → Bool
is_lower c = leb b'a' c && leb c b'z'

-- `c := dev[len(dev)-1]; c >= '0' && c <= '9'`, on the reversed name
unfoldable pub ends_in_digit : Text → Bool
unfolding is_digit
ends_in_digit [] = false
ends_in_digit (c ∷ r) = is_digit c

-- the loop from the end of the name, over the reversed name
unfoldable pub letter_loop : Text → Bool
unfolding is_digit is_lower
letter_loop [] = false
letter_loop (c ∷ r) = let rest = letter_loop r in if is_digit c then rest else is_lower c

unfoldable pub is_partition : Text → Bool
unfolding contains last_place ends_in_digit letter_loop
is_partition [] = false
is_partition (c ∷ s) =
    let dev = c ∷ s in
    let r = reverse dev in
    if contains (codes "nvme") dev
    then contains (codes "p") dev
      && ends_in_digit r
      && ltb (last_place b'n' dev) (last_place b'p' dev)
    else if ends_in_digit r
    then letter_loop r
    else false

-- `fields[idx]`, which is evaluated only where there are at least 14 fields and `idx` is below that
unfoldable pub field : List Text → ℕ → Text
field fs idx = elim (get_elem? fs idx) [ none ↦ [] | some s ↦ s ]

module _ (fl : Floats) where
  open fl use {F, parse_float, of_nat, mul, div}

  -- `v, _ := strconv.ParseFloat(fields[idx], 64)`
  unfoldable pub parse_field : List Text → ℕ → F
  unfolding field
  parse_field fs idx = (parse_float (field fs idx)).0

  abbrev metric : Text → String → String → Text → F → Metric F
  metric device name help type value = record {
    name = codes name;
    help = codes help;
    type = type;
    labels = (codes "device", device) ∷ [];
    value = value;
  }

  unfoldable disk_metrics : Text → List Text → List (Metric F)
  unfolding parse_field
  disk_metrics device fs =
      metric device "node_disk_reads_completed_total" "Total reads completed." counter
        (parse_field fs 3)
      ∷ metric device "node_disk_reads_merged_total" "Total reads merged." counter
          (parse_field fs 4)
      ∷ metric device "node_disk_read_bytes_total" "Total bytes read." counter
          (mul (parse_field fs 5) (of_nat 512))
      ∷ metric device "node_disk_read_time_seconds_total" "Total read time." counter
          (div (parse_field fs 6) (of_nat 1000))
      ∷ metric device "node_disk_writes_completed_total" "Total writes completed." counter
          (parse_field fs 7)
      ∷ metric device "node_disk_writes_merged_total" "Total writes merged." counter
          (parse_field fs 8)
      ∷ metric device "node_disk_written_bytes_total" "Total bytes written." counter
          (mul (parse_field fs 9) (of_nat 512))
      ∷ metric device "node_disk_write_time_seconds_total" "Total write time." counter
          (div (parse_field fs 10) (of_nat 1000))
      ∷ metric device "node_disk_io_now" "I/Os currently in progress." gauge (parse_field fs 11)
      ∷ metric device "node_disk_io_time_seconds_total" "Total time doing I/Os." counter
          (div (parse_field fs 12) (of_nat 1000))
      ∷ metric device "node_disk_io_time_weighted_seconds_total" "Weighted time doing I/Os." counter
          (div (parse_field fs 13) (of_nat 1000))
      ∷ []

  -- the fields of one line
  unfoldable disk_fields : List Text → List (Metric F)
  unfolding disk_metrics field is_partition
  disk_fields fs =
      if ltb (length fs) 14
      then []
      else if is_partition (field fs 2)
      then []
      else disk_metrics (field fs 2) fs

  unfoldable pub disk_loop : List Text → List (Metric F)
  unfolding disk_fields fields
  disk_loop [] = []
  disk_loop (line ∷ ls) = disk_fields (fields line) ++ disk_loop ls

  unfoldable pub collect_disk : Option Text → List (Metric F)
  unfolding disk_loop scan_lines
  collect_disk none = []
  collect_disk (some stats) = disk_loop (scan_lines stats)

  -- the metric is of one device, which counts as no partition
  abbrev pub IsOfWholeDisk : Metric F → Type 0
  IsOfWholeDisk m = (d : Text) × (m.labels ≡ (codes "device", d) ∷ []) × (is_partition d ≡ false)

  disk_metrics-All :
      (d : Text) (fs : List Text) → is_partition d ≡ false → All IsOfWholeDisk (disk_metrics d fs)
  unfolding disk_metrics
  disk_metrics-All d fs h =
      let m : (e : Text) × ((codes "device", d) ∷ [] ≡ (codes "device", e) ∷ [])
          × (is_partition e ≡ false) =
        (d, refl, h) in
      (m, (m, (m, (m, (m, (m, (m, (m, (m, (m, (m, tt)))))))))))

  disk_fields-All : (fs : List Text) → All IsOfWholeDisk (disk_fields fs)
  unfolding disk_fields
  disk_fields-All fs = elim (Bool-cases (ltb (length fs) 14)) [
    | inl short ↦ rw short tt
    | inr long ↦ elim (Bool-cases (is_partition (field fs 2))) [
      | inl part ↦ rw (long, part) tt
      | inr whole ↦ rw (long, whole) (disk_metrics-All (field fs 2) fs whole)
    ]
  ]

  disk_loop-All : (ls : List Text) → All IsOfWholeDisk (disk_loop ls)
  unfolding disk_loop
  disk_loop-All [] = tt
  disk_loop-All (line ∷ ls) =
      let fs = fields line in
      All-append IsOfWholeDisk (disk_fields fs) (disk_loop ls) (disk_fields-All fs)
        (disk_loop-All ls)

  -- Every metric that Collect returns is of a device that does not count as a partition.
  pub collect_disk-IsOfWholeDisk : (stats : Option Text) → All IsOfWholeDisk (collect_disk stats)
  unfolding collect_disk
  collect_disk-IsOfWholeDisk none = tt
  collect_disk-IsOfWholeDisk (some stats) = disk_loop-All (scan_lines stats)
