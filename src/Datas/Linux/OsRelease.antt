-- ===== src/Datas/Linux/OsRelease.antt =====
-- internal/datas/providers_linux.go: the operating system.
pub mod Quoted
use limiz.Base.{
  Text, List, [], ◌∷◌, ◌++◌, Bool, true, false, Option, none, some, codes, if◌then◌else◌, text_eq,
}
use limiz.Strings.Affix.{cut}
use limiz.Strings.Trim.{trim_space, trim}
use limiz.Strings.Lines.{scan_lines}
use limiz.Datas.Linux.{Output, Machine}

pub record OsInfo : Type 0 where
  pub name : Text
  pub version : Text
  pub id : Text
  pub pretty_name : Text
  pub kernel : Text

-- a line without `=` gives two empty texts
unfoldable pub parse_kv : Text → Text × Text
parse_kv line = elim (cut b'=' line) [ none ↦ ([], []) | some (k, v) ↦ (k, trim b'"' v) ]

-- the `switch` on the key
set_key : OsInfo → Text → Text → OsInfo
set_key info k v =
    if text_eq k (codes "NAME")
    then record info { name = v }
    else if text_eq k (codes "VERSION")
    then record info { version = v }
    else if text_eq k (codes "ID")
    then record info { id = v }
    else if text_eq k (codes "PRETTY_NAME")
    then record info { pretty_name = v }
    else info

release_loop : OsInfo → List Text → OsInfo
unfolding set_key
release_loop info [] = info
release_loop info (line ∷ ls) = let (k, v) = parse_kv line in release_loop (set_key info k v) ls

read_release : OsInfo → Option Text → OsInfo
unfolding release_loop
read_release info none = info
read_release info (some text) = release_loop info (scan_lines text)

set_kernel : OsInfo → Output → OsInfo
set_kernel info o = elim o.err [
  | some e ↦ info
  | none ↦ record info { kernel = trim_space o.stdout }
]

abbrev empty_info : OsInfo
empty_info = record { name = []; version = []; id = []; pretty_name = []; kernel = [] }

unfoldable pub collect_os : Machine → OsInfo
unfolding read_release set_kernel
collect_os m =
    set_kernel (read_release empty_info (m.read_file (codes "/etc/os-release")))
      (m.run (codes "uname") (codes "-r" ∷ []))
