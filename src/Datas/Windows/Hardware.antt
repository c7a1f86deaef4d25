-- ===== src/Datas/Windows/Hardware.antt =====
-- internal/datas/providers_windows.go: the hardware and the operating system.
use limiz.Base.{Text, ◌++◌, codes, ℤ}
use limiz.Strings.Trim.{trim_space}
use limiz.Datas.Windows.{Powershell, ps_string, ps_int}

pub record HwInfo : Type 0 where
  pub hostname : Text
  pub cpu_model : Text
  pub cpu_cores : ℤ
  pub total_memory : Text
  pub manufacturer : Text
  pub model : Text
  pub serial : Text
  pub bios_vendor : Text
  pub bios_version : Text

-- `gb` is `float64(n)/1073741824` printed by the verb `%.1f`
unfoldable pub collect_windows_hardware : (ℤ → Text) → Powershell → HwInfo
collect_windows_hardware gb ps = record {
  hostname = ps_string ps (codes "(Get-CimInstance Win32_ComputerSystem).Name");
  cpu_model =
      ps_string ps (codes "(Get-CimInstance Win32_Processor | Select-Object -First 1).Name");
  cpu_cores = ps_int ps (
      codes
        "(Get-CimInstance Win32_Processor | Measure-Object -Property NumberOfLogicalProcessors -Sum).Sum");
  total_memory =
      gb (
        ps_int ps
          (codes "[math]::Round((Get-CimInstance Win32_ComputerSystem).TotalPhysicalMemory)"))
      ++ codes " GB";
  manufacturer = ps_string ps (codes "(Get-CimInstance Win32_ComputerSystem).Manufacturer");
  model = ps_string ps (codes "(Get-CimInstance Win32_ComputerSystem).Model");
  serial = ps_string ps (codes "(Get-CimInstance Win32_BIOS).SerialNumber");
  bios_vendor = ps_string ps (codes "(Get-CimInstance Win32_BIOS).Manufacturer");
  bios_version = ps_string ps (codes "(Get-CimInstance Win32_BIOS).SMBIOSBIOSVersion");
}

pub record WindowsInfo : Type 0 where
  pub name : Text
  pub version : Text
  pub build : Text
  pub arch : Text

unfoldable pub collect_windows_os : Powershell → WindowsInfo
collect_windows_os ps = record {
  name = trim_space (ps_string ps (codes "(Get-CimInstance Win32_OperatingSystem).Caption"));
  version = ps_string ps (codes "(Get-CimInstance Win32_OperatingSystem).Version");
  build = ps_string ps (codes "(Get-CimInstance Win32_OperatingSystem).BuildNumber");
  arch = ps_string ps (codes "(Get-CimInstance Win32_OperatingSystem).OSArchitecture");
}
