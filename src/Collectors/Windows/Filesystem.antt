-- ===== src/Collectors/Windows/Filesystem.antt =====
-- internal/collectors/filesystem_windows.go.
use limiz.Base.{Text, Map, List, [], ◌∷◌, ◌++◌, none, some, codes, if◌then◌else◌}
use limiz.Floats.{Floats}
use limiz.Collectors.Metric.{Metric, gauge}
use limiz.Collectors.Windows.{Value, Powershell, ps_json, get_string, get_float, plain_metric}

abbrev command : Text
command =
    codes "Get-CimInstance Win32_LogicalDisk -Filter \"DriveType=3\" | "
    ++ codes "Select-Object DeviceID, FileSystem, FreeSpace, Size | ConvertTo-Json"

module _ (fl : Floats) where
  open fl use {F, of_nat, eq}

  unfoldable pub drive_labels : Map (Value F) → Map Text
  drive_labels d =
      (codes "device", get_string d "DeviceID")
      ∷ (codes "mountpoint", get_string d "DeviceID" ++ b'\\' ∷ [])
      ∷ (codes "fstype", get_string d "FileSystem")
      ∷ []

  unfoldable pub drive_metrics : Map (Value F) → List (Metric F)
  drive_metrics d =
      let labels = drive_labels d in
      let free_space = get_float fl d "FreeSpace" in
      plain_metric labels gauge "node_filesystem_size_bytes" "Filesystem size in bytes."
        (get_float fl d "Size")
      ∷ plain_metric labels gauge "node_filesystem_free_bytes" "Filesystem free space in bytes."
          free_space
      ∷ plain_metric labels gauge "node_filesystem_avail_bytes"
          "Filesystem available space in bytes." free_space
      ∷ []

  unfoldable pub drive_rows : List (Map (Value F)) → List (Metric F)
  drive_rows [] = []
  drive_rows (d ∷ ds) =
      (if eq (get_float fl d "Size") (of_nat 0) then [] else drive_metrics d) ++ drive_rows ds

  unfoldable pub collect_drives : Powershell F → List (Metric F)
  collect_drives ps = elim (ps_json ps command) [
    | none ↦ []
    | some disk_data ↦ drive_rows disk_data
  ]
