-- ===== src/Datas/Linux.antt =====
-- internal/datas/providers_linux.go: the machine that the providers ask, and the provider of services.
pub mod Packages
pub mod Updates
pub mod DiskHealth
pub mod Hardware
pub mod OsRelease
use limiz.Base.{Text, List, [], ◌∷◌, ◌++◌, Bool, true, false, Option, none, some, codes}
use limiz.Strings.Affix.{trim_suffix}
use limiz.Strings.Trim.{trim_space}
use limiz.Strings.Split.{split, join}
use limiz.Strings.Fields.{fields}

-- how `exec.Command(name, args...).Output()` ended: the output, and the error's text
pub record Output : Type 0 where
  pub stdout : Text
  pub err : Option Text

pub record Machine : Type 0 where
  -- `exec.LookPath(name)` succeeds
  pub has_command : Text → Bool
  pub run : Text → List Text → Output
  -- the text of a file, none where it cannot be opened
  pub read_file : Text → Option Text

pub data Result (A : Type 0) : Type 0 where
  ok : A → Result A
  fail : Text → Result A

pub record ServiceInfo : Type 0 where
  pub name : Text
  pub load_state : Text
  pub active_state : Text
  pub sub_state : Text
  pub description : Text

-- the fields of one line; the description is what stands behind the fourth
service_fields : List Text → List ServiceInfo
service_fields (name ∷ load ∷ active ∷ sub ∷ description) =
    record {
      name = trim_suffix (codes ".service") name;
      load_state = load;
      active_state = active;
      sub_state = sub;
      description = join b' ' description;
    }
    ∷ []
service_fields _ = []

service_loop : List Text → List ServiceInfo
unfolding service_fields
service_loop [] = []
service_loop ([] ∷ ls) = service_loop ls
service_loop ((c ∷ line) ∷ ls) = service_fields (fields (c ∷ line)) ++ service_loop ls

services_of : Output → Result (List ServiceInfo)
unfolding service_loop
services_of o = elim o.err [
  | some e ↦ fail (codes "systemctl: " ++ e)
  | none ↦ ok (service_loop (split b'\n' (trim_space o.stdout)))
]

unfoldable pub collect_services : Machine → Result (List ServiceInfo)
unfolding services_of
collect_services m = services_of (
    m.run (codes "systemctl") (
      codes "list-units"
      ∷ codes "--type=service"
      ∷ codes "--all"
      ∷ codes "--no-legend"
      ∷ codes "--no-pager"
      ∷ []))
