-- ===== src/Datas/Windows/Packages.antt =====
-- internal/datas/providers_windows.go: the packages and the updates.
use limiz.Base.{Text, List, [], ◌++◌, map, Bool, true, codes, if◌then◌else◌, text_eq}
use limiz.Datas.Json.{Json}
use limiz.Datas.Linux.{Result}
use limiz.Datas.Windows.{Powershell, set_text, ps_json, wrapped}

pub record RawPkg : Type 0 where
  pub display_name : Text
  pub display_version : Text

abbrev pub no_pkg : RawPkg
no_pkg = record { display_name = []; display_version = [] }

unfoldable pub set_pkg : Text → Json → RawPkg → RawPkg × Bool
set_pkg key v r =
    if text_eq key (codes "displayname")
    then (let (s, good) = set_text v r.display_name in (record r { display_name = s }, good))
    else if text_eq key (codes "displayversion")
    then (let (s, good) = set_text v r.display_version in (record r { display_version = s }, good))
    else (r, true)

pub record PkgInfo : Type 0 where
  pub name : Text
  pub version : Text

unfoldable pub pkg_info : RawPkg → PkgInfo
pkg_info r = record { name = r.display_name; version = r.display_version }

abbrev pub packages_script : Text
packages_script =
    codes "\n$paths = @(\n  'HKLM:\\SOFTWARE\\Microsoft\\Windows\\CurrentVersion\\Uninstall\\*',\n"
    ++ (codes
          "  'HKLM:\\SOFTWARE\\WOW6432Node\\Microsoft\\Windows\\CurrentVersion\\Uninstall\\*'\n)\n"
        ++ (codes
              "@(Get-ItemProperty $paths -ErrorAction SilentlyContinue |\n  Where-Object { $_.DisplayName } |\n"
            ++ (codes
                  "  Select-Object DisplayName, DisplayVersion |\n  Sort-Object DisplayName) |\n"
                ++ codes "  ConvertTo-Json -Compress\n")))

unfoldable pub collect_windows_packages : Powershell → Result (List PkgInfo)
collect_windows_packages ps =
    wrapped (codes "get packages") (map pkg_info) (ps_json no_pkg set_pkg ps packages_script)

pub record UpdInfo : Type 0 where
  pub title : Text

abbrev pub no_upd : UpdInfo
no_upd = record { title = [] }

unfoldable pub set_upd : Text → Json → UpdInfo → UpdInfo × Bool
set_upd key v r =
    if text_eq key (codes "title")
    then (let (s, good) = set_text v r.title in (record r { title = s }, good))
    else (r, true)

abbrev pub updates_script : Text
updates_script =
    codes "\n$s = New-Object -ComObject Microsoft.Update.Session\n$u = $s.CreateUpdateSearcher()\n"
    ++ (codes "$r = $u.Search(\"IsInstalled=0\")\n"
        ++ codes
            "@($r.Updates | ForEach-Object { [pscustomobject]@{Title=$_.Title} }) | ConvertTo-Json -Compress\n")

unfoldable pub collect_windows_updates : Powershell → Result (List UpdInfo)
collect_windows_updates ps =
    wrapped (codes "get updates") (λ raw. raw) (ps_json no_upd set_upd ps updates_script)
