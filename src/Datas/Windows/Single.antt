-- ===== src/Datas/Windows/Single.antt =====
-- internal/datas/providers_windows.go: what `psJSON` makes of an output that is not an array, which
-- `ConvertTo-Json` prints where its input has one object, or none.
use limiz.Base.{◌++◌, ◌≡◌, Text, none, some, ◌⊎◌, codes}
use limiz.Datas.Json.{Json, object, JsonFields}
use limiz.Datas.Linux.{fail}
use limiz.Datas.Windows.{printed, Powershell}
use limiz.Datas.Windows.Services.{collect_windows_services, services_script}
use limiz.Datas.Windows.Packages.{
  collect_windows_packages, packages_script, collect_windows_updates, updates_script,
}
use limiz.Datas.Windows.DiskHealth.{collect_windows_disks, disks_script}

-- a command prints one object, or nothing that is JSON
pub record IsUnlisted (ps : Powershell) (script : Text) : Type 0 where
  pub out : Text
  pub prints : ps.run script ≡ printed out
  pub single :
      (ps.parse_json out ≡ none) ⊎ ((fs : JsonFields) × (ps.parse_json out ≡ some (object fs)))

-- the providers whose one command lists what they return
pub data Inventory : Type 0 where
  services : Inventory
  packages : Inventory
  updates : Inventory
  disks : Inventory

abbrev pub script_of : Inventory → Text
script_of services = services_script
script_of packages = packages_script
script_of updates = updates_script
script_of disks = disks_script

-- the provider returns the error of the reading, behind its own words
abbrev pub Fails : Inventory → Powershell → Text → Type 0
Fails services ps err =
    collect_windows_services ps ≡ fail (codes "get services" ++ (codes ": " ++ err))
Fails packages ps err =
    collect_windows_packages ps ≡ fail (codes "get packages" ++ (codes ": " ++ err))
Fails updates ps err =
    collect_windows_updates ps ≡ fail (codes "get updates" ++ (codes ": " ++ err))
Fails disks ps err =
    collect_windows_disks ps ≡ fail (codes "get disk health" ++ (codes ": " ++ err))
