-- ===== src/Datas/Linux/Hardware.antt =====
-- internal/datas/providers_linux.go: the hardware.
use limiz.Base.{
  ℕ, Text, List, [], ◌∷◌, ◌++◌, Bool, true, false, Option, none, some, codes, if◌then◌else◌,
}
use limiz.Strings.Affix.{cut, has_prefix}
use limiz.Strings.Trim.{trim_space}
use limiz.Strings.Fields.{fields}
use limiz.Strings.Lines.{scan_lines}
use limiz.Floats.{Floats}
use limiz.Datas.Linux.{Machine}
use limiz.Datas.Linux.DiskHealth.{read_sys_str}

pub record HardwareInfo : Type 0 where
  pub hostname : Text
  pub architecture : Text
  pub cpu_model : Text
  pub cpu_cores : ℕ
  pub total_memory : Text
  pub board_vendor : Text
  pub board_name : Text
  pub bios_vendor : Text
  pub bios_version : Text
  pub product_name : Text
  pub product_serial : Text
  pub machine_id : Text

-- the loop over /proc/cpuinfo, which ends at the first line `model name` that has a colon
model_loop : List Text → Text
unfolding has_prefix cut trim_space
model_loop [] = []
model_loop (l ∷ ls) =
    let rest = model_loop ls in
    if has_prefix (codes "model name") l
    then elim (cut b':' l) [ none ↦ rest | some (a, b) ↦ trim_space b ]
    else rest

unfoldable pub cpu_model : Option Text → Text
unfolding model_loop scan_lines
cpu_model none = []
cpu_model (some cpuinfo) = model_loop (scan_lines cpuinfo)

module _ (fl : Floats) (format_1f : fl.F → Text) where
  open fl use {F, parse_float, of_nat, div}

  -- `format_1f` is the verb `%.1f`
  gigabytes : F × Bool → Text
  gigabytes (kb, true) = format_1f (div (div kb (of_nat 1024)) (of_nat 1024)) ++ codes " GB"
  gigabytes (kb, false) = []

  memory_of : List Text → Text
  unfolding gigabytes
  memory_of (a ∷ b ∷ parts) = gigabytes (parse_float b)
  memory_of _ = []

  -- the loop over /proc/meminfo, which ends at the first line `MemTotal:`
  memory_loop : List Text → Text
  unfolding memory_of has_prefix fields
  memory_loop [] = []
  memory_loop (l ∷ ls) =
      let rest = memory_loop ls in
      if has_prefix (codes "MemTotal:") l then memory_of (fields l) else rest

  unfoldable pub total_memory : Option Text → Text
  unfolding memory_loop scan_lines
  total_memory none = []
  total_memory (some meminfo) = memory_loop (scan_lines meminfo)

  -- `os.Hostname()`, `runtime.GOARCH` and `runtime.NumCPU()` are arguments
  unfoldable pub collect_hardware : Machine → Text → Text → ℕ → HardwareInfo
  unfolding cpu_model total_memory read_sys_str
  collect_hardware m hostname goarch num_cpu = record {
    hostname = hostname;
    architecture = goarch;
    cpu_model = cpu_model (m.read_file (codes "/proc/cpuinfo"));
    cpu_cores = num_cpu;
    total_memory = total_memory (m.read_file (codes "/proc/meminfo"));
    board_vendor = read_sys_str m (codes "/sys/class/dmi/id/board_vendor");
    board_name = read_sys_str m (codes "/sys/class/dmi/id/board_name");
    bios_vendor = read_sys_str m (codes "/sys/class/dmi/id/bios_vendor");
    bios_version = read_sys_str m (codes "/sys/class/dmi/id/bios_version");
    product_name = read_sys_str m (codes "/sys/class/dmi/id/product_name");
    product_serial = read_sys_str m (codes "/sys/class/dmi/id/product_serial");
    machine_id = read_sys_str m (codes "/etc/machine-id");
  }
