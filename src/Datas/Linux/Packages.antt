-- ===== src/Datas/Linux/Packages.antt =====
-- internal/datas/providers_linux.go: the packages.
pub mod Queries
use limiz.Base.{ℕ, Text, List, [], ◌∷◌, ◌++◌, Bool, Option, none, some, codes, if◌then◌else◌}
use limiz.Strings.Affix.{cut}
use limiz.Strings.Trim.{trim_space}
use limiz.Strings.Split.{split}
use limiz.Datas.Linux.{Output, Machine, Result, ok, fail}

pub record PackageInfo : Type 0 where
  pub name : Text
  pub version : Text

-- a tab
abbrev pub tab : ℕ
tab = 9

-- `strings.SplitN(line, "\t", 3)`, of which the first two parts are used
dpkg_line : Text → List PackageInfo
dpkg_line line = elim (cut tab line) [
  | none ↦ []
  | some (name, rest) ↦ elim (cut tab rest) [
    | none ↦ record { name = name; version = rest } ∷ []
    | some (version, arch) ↦ record { name = name; version = version } ∷ []
  ]
]

-- `strings.SplitN(line, "\t", 2)`
rpm_line : Text → List PackageInfo
rpm_line line = elim (cut tab line) [
  | none ↦ []
  | some (name, version) ↦ record { name = name; version = version } ∷ []
]

package_loop : (Text → List PackageInfo) → List Text → List PackageInfo
package_loop read [] = []
package_loop read (line ∷ ls) = read line ++ package_loop read ls

packages_of : (Text → List PackageInfo) → Output → Result (List PackageInfo)
unfolding package_loop
packages_of read o = elim o.err [
  | some e ↦ fail e
  | none ↦ ok (package_loop read (split b'\n' (trim_space o.stdout)))
]

unfoldable pub collect_dpkg : Machine → Result (List PackageInfo)
unfolding packages_of dpkg_line
collect_dpkg m = packages_of dpkg_line (
    m.run (codes "dpkg-query")
      (codes "-W" ∷ codes "-f" ∷ codes "${Package}\t${Version}\t${Architecture}\n" ∷ []))

unfoldable pub collect_rpm : Machine → Result (List PackageInfo)
unfolding packages_of rpm_line
collect_rpm m = packages_of rpm_line (
    m.run (codes "rpm")
      (codes "-qa" ∷ codes "--queryformat" ∷ codes "%{NAME}\t%{VERSION}-%{RELEASE}\n" ∷ []))

-- dpkg is asked before rpm
unfoldable pub collect_packages : Machine → Result (List PackageInfo)
unfolding collect_dpkg collect_rpm
collect_packages m =
    if m.has_command (codes "dpkg-query")
    then collect_dpkg m
    else if m.has_command (codes "rpm")
    then collect_rpm m
    else fail (codes "no supported package manager found (dpkg/rpm)")
