-- ===== src/Tests/Windows.antt =====
-- The collectors of internal/collectors for Windows at concrete inputs.
use limiz.Base.{ℕ, lookup, ◌≡◌, refl, [], ◌∷◌, ◌++◌, some, codes, map, take, length, All}
use limiz.Base.{insert, text_eq}
use limiz.Strings.Case.{to_lower}
use limiz.Strings.Affix.{contains}
use limiz.Strings.Trim.{trim_space}
use limiz.Strings.Fields.{fields}
use limiz.Strconv.Decimal.{parse_nat}
use limiz.Collectors.Windows.{
  string, number, object, single, Powershell, ps_json, rows, row, get_float, get_string,
}
use limiz.Collectors.Windows.Disk.{
  is_alnum, disk_rows, disk_row, disk_metrics, sanitize_disk_name, collect_disks,
}
use limiz.Collectors.Windows.Network.{
  interface_rows, is_passed_over, interface_metrics, safe_name, collect_interfaces,
}
use limiz.Collectors.Windows.Filesystem.{drive_rows, drive_metrics, drive_labels, collect_drives}
use limiz.Collectors.Windows.Exposition.{read_value}
use limiz.Collectors.Windows.Exposition.Names.{IsFound, devices-IsFound}
use limiz.Collectors.Windows.Exposition.Drives.{IsLost, collect_drives-IsLost}
use limiz.Tests.Numbers.{naturals}

-- one row for every command
abbrev windows : Powershell ℕ
windows = record {
  output = λ command. some (codes " {...} ");
  unmarshal = λ s. some (
      single (
        object (
          (codes "Name", string (codes "0 C:"))
          ∷ (codes "DeviceID", string (codes "C:"))
          ∷ (codes "FileSystem", string (codes "NTFS"))
          ∷ (codes "Size", number 100)
          ∷ (codes "FreeSpace", number 40)
          ∷ (codes "BytesSentPersec", number 7)
          ∷ [])));
}

devices-IsFound_example :
    All (IsFound naturals) (collect_disks naturals windows ++ collect_interfaces naturals windows)
devices-IsFound_example = devices-IsFound naturals windows

collect_drives-IsLost_example : All (IsLost naturals) (collect_drives naturals windows)
collect_drives-IsLost_example = collect_drives-IsLost naturals windows

drives_run : map (λ m. m.value) (collect_drives naturals windows) ≡ 100 ∷ 40 ∷ 40 ∷ []
unfolding collect_drives drive_rows drive_metrics drive_labels ps_json rows row trim_space get_float
    get_string lookup insert text_eq
drives_run = refl

disks_run : length (collect_disks naturals windows) ≡ 7
unfolding collect_disks disk_rows disk_row disk_metrics ps_json rows row trim_space get_float
    get_string lookup insert text_eq
disks_run = refl

interfaces_run :
    map (λ m. m.labels) (take 1 (collect_interfaces naturals windows))
    ≡ ((codes "device", codes "0_C_") ∷ []) ∷ []
unfolding collect_interfaces interface_rows is_passed_over interface_metrics ps_json rows row
    trim_space get_float get_string lookup insert contains to_lower safe_name text_eq is_alnum
interfaces_run = refl

names_run : sanitize_disk_name (codes "0 C:") ≡ codes "disk0"
unfolding sanitize_disk_name fields parse_nat
names_run = refl

-- the reader goes on behind the quote that the backslash escapes
mount_point_run :
    read_value (codes "C:\\\",fstype=\"NTFS\"} 100")
    ≡ some (codes "C:\",fstype=", codes "NTFS\"} 100")
unfolding read_value
mount_point_run = refl
