-- ===== src/Datas/Windows/DiskHealth.antt =====
-- internal/datas/providers_windows.go: the health of the disks.
use limiz.Base.{ℕ, Text, List, [], ◌∷◌, map, Bool, true, codes, if◌then◌else◌, text_eq, ℤ, pos}
use limiz.Datas.Json.{Json}
use limiz.Datas.Linux.{Result}
use limiz.Datas.Windows.{Powershell, set_text, set_int, set_uint, ps_json, wrapped, code_name}

pub record RawDisk : Type 0 where
  pub device_id : Text
  pub friendly_name : Text
  pub media_type : ℤ
  pub health_status : ℤ
  pub size : ℕ

abbrev pub no_disk : RawDisk
no_disk = record {
  device_id = [];
  friendly_name = [];
  media_type = pos 0;
  health_status = pos 0;
  size = 0;
}

unfoldable pub set_disk : Text → Json → RawDisk → RawDisk × Bool
set_disk key v r =
    if text_eq key (codes "deviceid")
    then (let (s, good) = set_text v r.device_id in (record r { device_id = s }, good))
    else if text_eq key (codes "friendlyname")
    then (let (s, good) = set_text v r.friendly_name in (record r { friendly_name = s }, good))
    else if text_eq key (codes "mediatype")
    then (let (n, good) = set_int v r.media_type in (record r { media_type = n }, good))
    else if text_eq key (codes "healthstatus")
    then (let (n, good) = set_int v r.health_status in (record r { health_status = n }, good))
    else if text_eq key (codes "size")
    then (let (n, good) = set_uint v r.size in (record r { size = n }, good))
    else (r, true)

unfoldable pub media_type_to_string : ℤ → Text
media_type_to_string t = code_name t ((3, "HDD") ∷ (4, "SSD") ∷ (5, "SCM") ∷ []) "Unspecified"

pub record DiskInfo : Type 0 where
  pub device_id : Text
  pub model : Text
  pub media_type : ℤ
  pub media_text : Text
  pub health_state : Text
  pub size : ℕ

unfoldable pub disk_of : RawDisk → DiskInfo
disk_of d = record {
  device_id = d.device_id;
  model = d.friendly_name;
  media_type = d.media_type;
  media_text = media_type_to_string d.media_type;
  health_state =
      code_name d.health_status ((0, "Healthy") ∷ (1, "Warning") ∷ (2, "Unhealthy") ∷ []) "Unknown";
  size = d.size;
}

abbrev pub disks_script : Text
disks_script =
    codes
      "@(Get-PhysicalDisk) | Select-Object DeviceId,FriendlyName,MediaType,HealthStatus,Size | ConvertTo-Json -Compress"

unfoldable pub collect_windows_disks : Powershell → Result (List DiskInfo)
collect_windows_disks ps =
    wrapped (codes "get disk health") (map disk_of) (ps_json no_disk set_disk ps disks_script)
