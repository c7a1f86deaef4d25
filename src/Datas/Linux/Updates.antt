-- ===== src/Datas/Linux/Updates.antt =====
-- internal/datas/providers_linux.go: the updates.
pub mod Apt
use limiz.Base.{
  Text, List, [], ◌∷◌, ◌++◌, Bool, true, false, ◌||◌, ◌&&◌, Option, none, some, codes,
  if◌then◌else◌,
}
use limiz.Strings.Affix.{cut, contains, has_prefix}
use limiz.Strings.Trim.{trim_space, trim_right}
use limiz.Strings.Split.{split}
use limiz.Strings.Fields.{fields}
use limiz.Datas.Ports.{cut_text}
use limiz.Datas.Linux.{Output, Machine, Result, ok, fail}

pub record UpdateInfo : Type 0 where
  pub name : Text
  pub current_ver : Text
  pub new_ver : Text

-- `parts[1]`, or "" where there are fewer than two
second_or_empty : List Text → Text
second_or_empty (a ∷ b ∷ parts) = b
second_or_empty _ = []

-- what stands behind `from: `, without the closing brackets
old_version : Text → Text
unfolding cut_text trim_right
old_version rest = elim (cut_text (codes "from: ") rest) [
  | none ↦ []
  | some (before, tail) ↦ trim_right b']' tail
]

apt_parts : Option (Text × Text) → List UpdateInfo
unfolding old_version second_or_empty
apt_parts none = []
apt_parts (some (name, rest)) =
    record { name = name; current_ver = old_version rest; new_ver = second_or_empty (fields rest) }
    ∷ []

unfoldable pub apt_line : Text → List UpdateInfo
unfolding apt_parts
apt_line line = if contains (codes "[upgradable") line then apt_parts (cut b'/' line) else []

apt_loop : List Text → List UpdateInfo
unfolding apt_line
apt_loop [] = []
apt_loop (line ∷ ls) = apt_line line ++ apt_loop ls

-- an error of apt gives an empty list
apt_updates : Output → List UpdateInfo
unfolding apt_loop
apt_updates o = elim o.err [ some e ↦ [] | none ↦ apt_loop (split b'\n' o.stdout) ]

unfoldable pub collect_apt_updates : Machine → List UpdateInfo
unfolding apt_updates
collect_apt_updates m = apt_updates (m.run (codes "apt") (codes "list" ∷ codes "--upgradable" ∷ []))

dnf_fields : List Text → List UpdateInfo
unfolding has_prefix
dnf_fields (name ∷ version ∷ fs) =
    if has_prefix (codes "Last") name || has_prefix (codes "Obsoleting") name
    then []
    else record { name = name; current_ver = []; new_ver = version } ∷ []
dnf_fields _ = []

dnf_loop : List Text → List UpdateInfo
unfolding dnf_fields
dnf_loop [] = []
dnf_loop (line ∷ ls) = dnf_fields (fields line) ++ dnf_loop ls

unfoldable pub parse_dnf_yum_output : Text → List UpdateInfo
unfolding dnf_loop
parse_dnf_yum_output output = dnf_loop (split b'\n' (trim_space output))

-- an error without any output gives an empty list
updates_of : Option Text → Text → List UpdateInfo
unfolding parse_dnf_yum_output
updates_of (some e) [] = []
updates_of (some e) (c ∷ s) = parse_dnf_yum_output (c ∷ s)
updates_of none s = parse_dnf_yum_output s

check_update : Text → Machine → List UpdateInfo
unfolding updates_of
check_update command m =
    let o = m.run command (codes "check-update" ∷ codes "--quiet" ∷ []) in updates_of o.err o.stdout

unfoldable pub collect_dnf_updates : Machine → List UpdateInfo
unfolding check_update
collect_dnf_updates = check_update (codes "dnf")

unfoldable pub collect_yum_updates : Machine → List UpdateInfo
unfolding check_update
collect_yum_updates = check_update (codes "yum")

unfoldable pub collect_updates : Machine → Result (List UpdateInfo)
unfolding collect_apt_updates collect_dnf_updates collect_yum_updates
collect_updates m =
    if m.has_command (codes "apt")
    then ok (collect_apt_updates m)
    else if m.has_command (codes "dnf")
    then ok (collect_dnf_updates m)
    else if m.has_command (codes "yum")
    then ok (collect_yum_updates m)
    else fail (codes "no supported update manager found (apt/dnf/yum)")
