-- ===== src/Collectors/Linux/Types.antt =====
-- internal/collectors: the types of the metrics of the Linux collectors.
use limiz.Base.{ℕ, Text, Option, All}
use limiz.Floats.{Floats}
use limiz.Collectors.Types.{IsTyped, OnSome}
use limiz.Collectors.Disk.{collect_disk}
use limiz.Collectors.Disk.Types.{collect_disk-IsTyped}
use limiz.Collectors.Linux.Cpu.{collect_cpu}
use limiz.Collectors.Linux.Cpu.Types.{collect_cpu-AreTyped}
use limiz.Collectors.Linux.Filesystem.{Statfs, collect_filesystem}
use limiz.Collectors.Linux.Filesystem.Types.{collect_filesystem-IsTyped}
use limiz.Collectors.Linux.Loadavg.{collect_loadavg, collect_uptime}
use limiz.Collectors.Linux.Loadavg.Types.{collect_loadavg-IsTyped, collect_uptime-IsTyped}
use limiz.Collectors.Linux.Memory.{collect_memory}
use limiz.Collectors.Linux.Memory.Types.{collect_memory-IsTyped}
use limiz.Collectors.Linux.Network.{collect_network}
use limiz.Collectors.Linux.Network.Types.{collect_network-IsTyped}

-- Whatever the files of /proc hold, every metric of the seven Linux collectors has the type that its name stands
-- for: it is a counter if the name ends in `_total`, and a gauge otherwise. Of the CPU collector this is said
-- where it does not panic.
pub collect-IsTyped :
    (fl : Floats) (statfs : Text → Option Statfs) (now later : ℕ) (file again : Option Text)
    → OnSome (All IsTyped) (collect_cpu fl file again)
      × All IsTyped (collect_memory fl file)
      × All IsTyped (collect_disk fl file)
      × All IsTyped (collect_filesystem fl statfs file)
      × All IsTyped (collect_network fl file)
      × All IsTyped (collect_loadavg fl file)
      × All IsTyped (collect_uptime fl now later file)
collect-IsTyped fl statfs now later file again = (
  collect_cpu-AreTyped fl file again,
  collect_memory-IsTyped fl file,
  collect_disk-IsTyped fl file,
  collect_filesystem-IsTyped fl statfs file,
  collect_network-IsTyped fl file,
  collect_loadavg-IsTyped fl file,
  collect_uptime-IsTyped fl now later file,
)
