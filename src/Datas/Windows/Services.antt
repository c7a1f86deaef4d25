-- ===== src/Datas/Windows/Services.antt =====
-- internal/datas/providers_windows.go: the services.
pub mod Encoded
use limiz.Base.{Text, List, [], ◌∷◌, map, Bool, true, codes, if◌then◌else◌, text_eq, ℤ, pos, negsuc}
use limiz.Datas.Json.{Json}
use limiz.Datas.Linux.{Result}
use limiz.Datas.Windows.{Powershell, set_text, set_int, ps_json, wrapped, code_name}

pub record RawSvc : Type 0 where
  pub name : Text
  pub display_name : Text
  pub status : ℤ
  pub start_type : ℤ

abbrev pub no_svc : RawSvc
no_svc = record { name = []; display_name = []; status = pos 0; start_type = pos 0 }

unfoldable pub set_svc : Text → Json → RawSvc → RawSvc × Bool
set_svc key v r =
    if text_eq key (codes "name")
    then (let (s, good) = set_text v r.name in (record r { name = s }, good))
    else if text_eq key (codes "displayname")
    then (let (s, good) = set_text v r.display_name in (record r { display_name = s }, good))
    else if text_eq key (codes "status")
    then (let (n, good) = set_int v r.status in (record r { status = n }, good))
    else if text_eq key (codes "starttype")
    then (let (n, good) = set_int v r.start_type in (record r { start_type = n }, good))
    else (r, true)

unfoldable pub status_to_string : ℤ → Text
status_to_string s =
    code_name s
      ((1, "Stopped")
        ∷ (2, "StartPending")
        ∷ (3, "StopPending")
        ∷ (4, "Running")
        ∷ (5, "ContinuePending")
        ∷ (6, "PausePending")
        ∷ (7, "Paused")
        ∷ [])
      "Unknown"

unfoldable pub start_type_to_string : ℤ → Text
start_type_to_string s =
    code_name s
      ((0, "Boot") ∷ (1, "System") ∷ (2, "Automatic") ∷ (3, "Manual") ∷ (4, "Disabled") ∷ [])
      "Unknown"

pub record SvcInfo : Type 0 where
  pub name : Text
  pub display_name : Text
  pub status : ℤ
  pub status_text : Text
  pub start_type : ℤ
  pub start_text : Text

unfoldable pub svc_info : RawSvc → SvcInfo
svc_info s = record {
  name = s.name;
  display_name = s.display_name;
  status = s.status;
  status_text = status_to_string s.status;
  start_type = s.start_type;
  start_text = start_type_to_string s.start_type;
}

abbrev pub services_script : Text
services_script =
    codes
      "@(Get-Service) | Select-Object Name,DisplayName,Status,StartType | ConvertTo-Json -Compress"

unfoldable pub collect_windows_services : Powershell → Result (List SvcInfo)
collect_windows_services ps =
    wrapped (codes "get services") (map svc_info) (ps_json no_svc set_svc ps services_script)
