-- ===== src/Datas/Windows/Services/Encoded.antt =====
-- internal/datas/providers_windows.go: the services that PowerShell lists are those that are returned.
use limiz.Base.{
  ◌≡◌, ◌≢◌, refl, ℕ, ◌<◌, ◌^◌, Text, List, [], ◌∷◌, map, true, some, codes, All, lt→ltb, ne→==,
  text_eq, ℤ, pos, arith,
}
use limiz.Strings.Case.{fold_name}
use limiz.Strconv.Decimal.{parse_nat, itoa, parse_nat-itoa, itoa-All, itoa-ne-nil, IsDigit}
use limiz.Datas.Json.{
  Json, number, string, array, object, JsonItems, no_item, item, no_field, field,
}
use limiz.Datas.Linux.{ok}
use limiz.Datas.Windows.{
  printed, Powershell, set_text, set_int, int_of, read_fields, read_struct, read_items, read_slice,
  ps_json, wrapped,
}
use limiz.Datas.Windows.Services.{
  RawSvc, no_svc, set_svc, svc_info, services_script, collect_windows_services,
}

-- a service as PowerShell prints it: the codes are not negative
pub record Svc : Type 0 where
  pub name : Text
  pub display_name : Text
  pub status : ℕ
  pub start_type : ℕ

abbrev pub IsInt : Svc → Type 0
IsInt s = (s.status < 2 ^ 63) × (s.start_type < 2 ^ 63)

unfoldable pub raw_of : Svc → RawSvc
raw_of s = record {
  name = s.name;
  display_name = s.display_name;
  status = pos s.status;
  start_type = pos s.start_type;
}

unfoldable pub svc_json : Svc → Json
svc_json s = object (
    field (codes "Name") (string s.name) (
      field (codes "DisplayName") (string s.display_name) (
        field (codes "Status") (number (itoa s.status))
          (field (codes "StartType") (number (itoa s.start_type)) no_field))))

unfoldable pub svc_items : List Svc → JsonItems
svc_items [] = no_item
svc_items (s ∷ ss) = item (svc_json s) (svc_items ss)

-- what a text of digits has been read as
int_of-digits :
    (s : Text) (n : ℕ)
    → s ≢ []
    → All IsDigit s
    → parse_nat s ≡ some n
    → n < 2 ^ 63
    → int_of s ≡ some (pos n)
unfolding int_of
int_of-digits [] n h d p l = absurd (h refl)
int_of-digits (c ∷ s) n h d p l =
    rw (int_of, ne→== c b'-' (λ e. omega (arith, e, d.0)), p, lt→ltb n (2 ^ 63) l) refl

set_int-itoa : (n : ℕ) (old : ℤ) → n < 2 ^ 63 → set_int (number (itoa n)) old ≡ (pos n, true)
unfolding set_int
set_int-itoa n old l =
    rw (set_int, int_of-digits (itoa n) n (itoa-ne-nil n) (itoa-All n) (parse_nat-itoa n) l) refl

read_struct-svc_json :
    (s : Svc) → IsInt s → read_struct no_svc set_svc (svc_json s) ≡ (raw_of s, true)
unfolding read_struct read_fields svc_json raw_of set_svc fold_name set_text text_eq
read_struct-svc_json s (h, k) =
    rw (set_int-itoa s.status (pos 0) h, set_int-itoa s.start_type (pos 0) k) refl

read_items-svc_items :
    (ss : List Svc)
    → All IsInt ss
    → read_items no_svc set_svc (svc_items ss) ≡ (map raw_of ss, true)
unfolding read_items svc_items
read_items-svc_items [] h = refl
read_items-svc_items (s ∷ ss) (h, k) = rw (read_struct-svc_json s h, read_items-svc_items ss k) refl

-- The services that PowerShell lists in an array, with codes that are ints, are returned as they are and in
-- their order, each with the words for its codes.
pub collect_windows_services-svc_items :
    (ps : Powershell) (out : Text) (ss : List Svc)
    → ps.run services_script ≡ printed out
    → ps.parse_json out ≡ some (array (svc_items ss))
    → All IsInt ss
    → collect_windows_services ps ≡ ok (map svc_info (map raw_of ss))
unfolding collect_windows_services ps_json read_slice wrapped
collect_windows_services-svc_items ps out ss r p h =
    rw (collect_windows_services, ps_json, r, p, read_items-svc_items ss h) refl
