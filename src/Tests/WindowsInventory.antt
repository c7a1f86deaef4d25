-- ===== src/Tests/WindowsInventory.antt =====
-- The providers of internal/datas for Windows at concrete inputs.
use limiz.Base.{text_eq, if◌then◌else◌, ◌≡◌, refl, [], ◌∷◌, some, codes, pos}
use limiz.Datas.Json.{object, no_field, array, item, no_item}
use limiz.Datas.Windows.{Powershell, printed, code_name}
use limiz.Datas.Windows.Services.{status_to_string}
use limiz.Datas.Windows.DiskHealth.{disks_script}
use limiz.Datas.Windows.NetPorts.{process_of, eq_int}

-- a machine with one disk: its command prints an object, and the others an array
abbrev one_disk : Powershell
one_disk = record {
  run = λ script. printed (if text_eq script disks_script then codes "{}" else codes "[{},{}]");
  parse_json = λ out. some (
      if text_eq out (codes "{}")
      then object no_field
      else array (item (object no_field) (item (object no_field) no_item)));
  unmarshal_error = λ script out. codes "cannot unmarshal object";
}

status_run : status_to_string (pos 4) ≡ codes "Running"
unfolding status_to_string code_name
status_run = refl

-- the last process of a number counts
process_run :
    process_of
      (pos 4)
      ((record { id = pos 4; process_name = codes "a" })
        ∷ (record { id = pos 4; process_name = codes "b" })
        ∷ [])
      []
    ≡ codes "b"
unfolding process_of eq_int
process_run = refl
