-- ===== src/Tests/Inventory.antt =====
-- The providers of internal/datas for Linux at concrete inputs.
use limiz.Base.{Text, Map, List, [], ◌∷◌, ◌≡◌, refl, some, none, codes, map, text_eq, if◌then◌else◌}
use limiz.Strings.Trim.{trim_space}
use limiz.Strings.Split.{split}
use limiz.Strings.Lines.{unlines, scan_lines}
use limiz.Strings.Fields.{fields}
use limiz.Strconv.Decimal.{itoa}
use limiz.Datas.Linux.{Machine, fail, collect_services}
use limiz.Datas.Linux.Packages.{PackageInfo}
use limiz.Datas.Linux.Packages.Queries.{dpkg_text}
use limiz.Datas.Linux.Updates.{collect_updates, parse_dnf_yum_output}
use limiz.Datas.Linux.Hardware.{collect_hardware}
use limiz.Datas.Linux.OsRelease.Quoted.{quoted_line}
use limiz.Tests.Numbers.{naturals}

abbrev bash : PackageInfo
bash = record { name = codes "bash"; version = codes "5.2-1" }

abbrev zlib : PackageInfo
zlib = record { name = codes "zlib1g"; version = codes "1:1.3" }

abbrev listed : List (PackageInfo × Text)
listed = (bash, codes "amd64") ∷ (zlib, codes "arm64") ∷ []

abbrev release : Map Text
release = (codes "NAME", codes "Debian GNU/Linux") ∷ (codes "ID", codes "debian") ∷ []

abbrev debian : Machine
debian = record {
  has_command = λ c. text_eq c (codes "dpkg-query");
  run = λ c args.
      if text_eq c (codes "dpkg-query")
      then record { stdout = unlines (map dpkg_text listed); err = none }
      else if text_eq c (codes "uname")
      then record { stdout = codes "6.1.0\n"; err = none }
      else record { stdout = []; err = some (codes "exit status 1") };
  read_file = λ f.
      if text_eq f (codes "/etc/os-release")
      then some (unlines (map quoted_line release))
      else if text_eq f (codes "/etc/machine-id")
      then some (codes "ab12\n")
      else if text_eq f (codes "/proc/cpuinfo")
      then some (codes "processor : 0\nmodel name : AMD EPYC\n")
      else none;
}

no_updates : collect_updates debian ≡ fail (codes "no supported update manager found (apt/dnf/yum)")
unfolding collect_updates text_eq
no_updates = refl

dnf :
    parse_dnf_yum_output (codes "\nLast metadata check\nvim.x86_64  9.1  updates\n")
    ≡ record { name = codes "vim.x86_64"; current_ver = []; new_ver = codes "9.1" } ∷ []
unfolding parse_dnf_yum_output split trim_space fields
dnf = refl

failing : collect_services debian ≡ fail (codes "systemctl: exit status 1")
unfolding collect_services text_eq
failing = refl

model :
    (collect_hardware naturals itoa debian (codes "host") (codes "amd64") 4).cpu_model
    ≡ codes "AMD EPYC"
unfolding collect_hardware text_eq scan_lines trim_space
model = refl
