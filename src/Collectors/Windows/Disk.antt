-- ===== src/Collectors/Windows/Disk.antt =====
-- internal/collectors/disk_windows.go.
use limiz.Base.{
  ℕ, ◌^◌, ltb, Text, Map, List, [], ◌∷◌, ◌++◌, map, Bool, false, ◌&&◌, ◌||◌, leb, ◌==◌, none, some,
  codes, if◌then◌else◌, text_eq,
}
use limiz.Strings.Fields.{fields}
use limiz.Strconv.Decimal.{parse_nat}
use limiz.Floats.{Floats}
use limiz.Collectors.Metric.{Metric, gauge}
use limiz.Collectors.Windows.{Value, Powershell, ps_json, get_string, get_float, plain_metric}

abbrev command : Text
command =
    codes "Get-CimInstance Win32_PerfFormattedData_PerfDisk_PhysicalDisk | "
    ++ (codes "Select-Object Name, DiskReadBytesPerSec, DiskWriteBytesPerSec, "
        ++ (codes "DiskReadsPerSec, DiskWritesPerSec, CurrentDiskQueueLength, "
            ++ codes "AvgDiskSecPerRead, AvgDiskSecPerWrite | ConvertTo-Json"))

-- what `strconv.Atoi` takes: digits behind a sign, in 64 bits
unfoldable pub is_int : Text → Bool
is_int [] = false
is_int (c ∷ s) =
    if c == b'-'
    then elim (parse_nat s) [ none ↦ false | some n ↦ leb n (2 ^ 63) ]
    else elim (parse_nat (if c == b'+' then s else c ∷ s)) [
      | none ↦ false
      | some n ↦ ltb n (2 ^ 63)
    ]

unfoldable pub is_alnum : ℕ → Bool
is_alnum c =
    (leb b'a' c && leb c b'z') || ((leb b'A' c && leb c b'Z') || (leb b'0' c && leb c b'9'))

unfoldable pub masked : Text → Text
unfolding is_alnum
masked = map (λ c. if is_alnum c then c else b'_')

unfoldable pub disk_number : Text → List Text → Text
unfolding is_int masked
disk_number name [] = masked name
disk_number name (part ∷ parts) = if is_int part then codes "disk" ++ part else masked name

unfoldable pub sanitize_disk_name : Text → Text
unfolding disk_number
sanitize_disk_name name = disk_number name (fields name)

module _ (fl : Floats) where
  open fl use {F}

  unfoldable pub disk_metrics : Text → Map (Value F) → List (Metric F)
  disk_metrics device p =
      let labels = (codes "device", device) ∷ [] in
      plain_metric labels gauge "node_disk_reads_completed_total" "Disk reads per second."
        (get_float fl p "DiskReadsPerSec")
      ∷ plain_metric labels gauge "node_disk_read_bytes_total" "Disk read bytes per second."
          (get_float fl p "DiskReadBytesPerSec")
      ∷ plain_metric labels gauge "node_disk_writes_completed_total" "Disk writes per second."
          (get_float fl p "DiskWritesPerSec")
      ∷ plain_metric labels gauge "node_disk_written_bytes_total" "Disk written bytes per second."
          (get_float fl p "DiskWriteBytesPerSec")
      ∷ plain_metric labels gauge "node_disk_io_now" "Current disk queue length."
          (get_float fl p "CurrentDiskQueueLength")
      ∷ plain_metric labels gauge "node_disk_read_latency_seconds" "Average read latency."
          (get_float fl p "AvgDiskSecPerRead")
      ∷ plain_metric labels gauge "node_disk_write_latency_seconds" "Average write latency."
          (get_float fl p "AvgDiskSecPerWrite")
      ∷ []

  unfoldable pub disk_row : Map (Value F) → List (Metric F)
  unfolding disk_metrics
  disk_row p =
      let name = get_string p "Name" in
      if text_eq name (codes "_Total") || text_eq name []
      then []
      else disk_metrics (sanitize_disk_name name) p

  unfoldable pub disk_rows : List (Map (Value F)) → List (Metric F)
  disk_rows [] = []
  disk_rows (p ∷ ps) = disk_row p ++ disk_rows ps

  unfoldable pub collect_disks : Powershell F → List (Metric F)
  collect_disks ps = elim (ps_json ps command) [ none ↦ [] | some perf_data ↦ disk_rows perf_data ]
