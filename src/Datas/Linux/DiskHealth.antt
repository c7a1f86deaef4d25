-- ===== src/Datas/Linux/DiskHealth.antt =====
-- internal/datas/providers_linux.go: the health of the disks. `os.ReadDir` of /sys/block is an argument.
use limiz.Base.{Text, List, [], ◌∷◌, ◌++◌, Bool, ◌||◌, none, some, codes, if◌then◌else◌}
use limiz.Strings.Affix.{cut, contains, has_prefix}
use limiz.Strings.Trim.{trim_space}
use limiz.Strings.Split.{split}
use limiz.Strings.Fields.{fields}
use limiz.Filepath.{join_path}
use limiz.Datas.Linux.{Output, Machine, Result, ok, fail}

pub record DiskHealthInfo : Type 0 where
  pub device : Text
  pub model : Text
  pub serial : Text
  pub smart_status : Text
  pub temp_c : Text
  pub power_on_hrs : Text

unfoldable pub read_sys_str : Machine → Text → Text
read_sys_str m path = elim (m.read_file path) [ none ↦ [] | some text ↦ trim_space text ]

-- loop, ram and dm devices, and optical drives
unfoldable pub is_virtual : Text → Bool
unfolding has_prefix
is_virtual name =
    has_prefix (codes "loop") name
    || has_prefix (codes "ram") name
    || has_prefix (codes "dm-") name
    || has_prefix (codes "sr") name

-- `fields[len(fields)-1]`, if there is one
last_or : Text → List Text → Text
last_or d [] = d
last_or d (f ∷ fs) = last_or f fs

status_line : DiskHealthInfo → Text → DiskHealthInfo
unfolding contains cut trim_space
status_line d l =
    if contains (codes "SMART overall-health") l || contains (codes "SMART Health Status") l
    then elim (cut b':' l) [ none ↦ d | some (a, b) ↦ record d { smart_status = trim_space b } ]
    else d

temp_line : DiskHealthInfo → Text → DiskHealthInfo
unfolding contains fields last_or
temp_line d l =
    if contains (codes "Temperature_Celsius") l || contains (codes "Current Drive Temperature") l
    then record d { temp_c = last_or d.temp_c (fields l) }
    else d

hours_line : DiskHealthInfo → Text → DiskHealthInfo
unfolding contains fields last_or
hours_line d l =
    if contains (codes "Power_On_Hours") l
    then record d { power_on_hrs = last_or d.power_on_hrs (fields l) }
    else d

-- the loop over the lines of smartctl
smart_loop : DiskHealthInfo → List Text → DiskHealthInfo
unfolding status_line temp_line hours_line
smart_loop d [] = d
smart_loop d (l ∷ ls) = smart_loop (hours_line (temp_line (status_line d l) l) l) ls

smart_output : DiskHealthInfo → Output → DiskHealthInfo
unfolding smart_loop split
smart_output d o = elim o.err [ some e ↦ d | none ↦ smart_loop d (split b'\n' o.stdout) ]

disk_info : Machine → Text → DiskHealthInfo
unfolding smart_output read_sys_str join_path
disk_info m name =
    let d : DiskHealthInfo = record {
      device = codes "/dev/" ++ name;
      model =
          read_sys_str m (join_path (codes "/sys/block") (join_path name (codes "device/model")));
      serial =
          read_sys_str m (join_path (codes "/sys/block") (join_path name (codes "device/serial")));
      smart_status = [];
      temp_c = [];
      power_on_hrs = [];
    } in
    if m.has_command (codes "smartctl")
    then smart_output d
        (m.run (codes "smartctl") (codes "-H" ∷ codes "-A" ∷ (codes "/dev/" ++ name) ∷ []))
    else d

disk_loop : Machine → List Text → List DiskHealthInfo
unfolding disk_info is_virtual
disk_loop m [] = []
disk_loop m (name ∷ names) =
    let rest = disk_loop m names in if is_virtual name then rest else disk_info m name ∷ rest

unfoldable pub collect_disk_health : Machine → Result (List Text) → Result (List DiskHealthInfo)
unfolding disk_loop
collect_disk_health m (fail e) = fail e
collect_disk_health m (ok names) = ok (disk_loop m names)
