-- ===== src/Tests/ProcFiles.antt =====
-- The collectors of internal/collectors for /proc at concrete inputs.
use limiz.Base.{
  Text, [], ◌∷◌, ◌≡◌, true, false, arith, refl, Option, some, none, codes, All, Distinct, map,
  length, text_eq, lookup, insert,
}
use limiz.Strings.Trim.{is_space, trim_space}
use limiz.Strings.Lines.{byte_length, scan_lines, unlines}
use limiz.Strings.Fields.{fields}
use limiz.Strings.Affix.{has_prefix, cut}
use limiz.Strconv.Decimal.{parse_nat}
use limiz.Base.{count_of}
use limiz.Collectors.Linux.Cpu.{collect_cpu}
use limiz.Collectors.Linux.Cpu.Total.{names_cpu}
use limiz.Collectors.Linux.Memory.{collect_memory, memory_metric}
use limiz.Collectors.Linux.Memory.Meminfo.{
  Entry, entry_line, all_metrics, collect_memory-all_metrics,
}
use limiz.Collectors.Linux.Network.{collect_network}
use limiz.Collectors.Linux.Filesystem.{Statfs, among, collect_filesystem}
use limiz.Collectors.Linux.Filesystem.Mounts.{
  IsMounted, mounts_of, size_name, collect_filesystem-IsMounted,
}
use limiz.Collectors.Linux.Loadavg.{collect_loadavg, collect_uptime, plain_gauge}
use limiz.Collectors.Disk.{collect_disk}
use limiz.Collectors.Types.{IsTyped, OnSome}
use limiz.Collectors.Linux.Types.{collect-IsTyped}
use limiz.Tests.Numbers.{naturals, solid}

abbrev stat : Text
stat =
    codes
      "cpu  20 1 5 400\ncpu0 8 1 3 200\ncpu1 12 0 2 200\nctxt 77\nprocesses 9\nprocs_running 2\n"

abbrev short_stat : Text
short_stat = codes "cpu0 8 1 3 200\nctxt \n"

panics : collect_cpu naturals (some short_stat) (some short_stat) ≡ none
unfolding collect_cpu scan_lines fields has_prefix
panics = refl

two_cpus : count_of (names_cpu naturals) (scan_lines stat) ≡ 2
unfolding count_of names_cpu scan_lines fields has_prefix text_eq parse_nat
two_cpus = refl

abbrev total_entry : Entry
total_entry = record {
  key = codes "MemTotal";
  blanks = codes "     ";
  number = codes "2000";
  in_kb = true;
}

abbrev pages_entry : Entry
pages_entry = record {
  key = codes "HugePages_Free";
  blanks = [];
  number = codes "3";
  in_kb = false;
}

abbrev other_entry : Entry
other_entry = record { key = codes "VmallocTotal"; blanks = []; number = codes "5"; in_kb = true }

collect_memory-all_metrics_example :
    collect_memory naturals
      (some (unlines (map entry_line (total_entry ∷ pages_entry ∷ other_entry ∷ []))))
    ≡ all_metrics naturals (total_entry ∷ pages_entry ∷ other_entry ∷ [])
unfolding is_space byte_length entry_line
collect_memory-all_metrics_example =
    collect_memory-all_metrics naturals (total_entry ∷ pages_entry ∷ other_entry ∷ []) (
      record {
        key_solid = solid (codes "MemTotal") refl;
        blank = (refl, (refl, (refl, (refl, (refl, tt)))));
        number_nonempty = cc;
        number_solid = solid (codes "2000") refl;
        fits = omega arith;
      },
      (
        record {
          key_solid = solid (codes "HugePages_Free") refl;
          blank = tt;
          number_nonempty = cc;
          number_solid = solid (codes "3") refl;
          fits = omega arith;
        },
        (
          record {
            key_solid = solid (codes "VmallocTotal") refl;
            blank = tt;
            number_nonempty = cc;
            number_solid = solid (codes "5") refl;
            fits = omega arith;
          },
          tt,
        ),
      ),
    )

wanted :
    all_metrics naturals (total_entry ∷ pages_entry ∷ other_entry ∷ [])
    ≡ memory_metric naturals (codes "node_memory_MemTotal_bytes") (codes "MemTotal") 2048000
      ∷ memory_metric naturals (codes "node_memory_HugePages_Free") (codes "HugePages_Free") 3
      ∷ []
unfolding all_metrics lookup text_eq parse_nat
wanted = refl

abbrev mounts : Text
mounts =
    codes
      "/dev/sda1 / ext4 rw 0 0\nproc /proc proc rw 0 0\n/dev/sdb1 / ext4 rw 0 0\n/dev/sdc1 /srv xfs rw 0 0\n"

abbrev statfs : Text → Option Statfs
statfs m =
    some (record { bsize = 4096; blocks = 10; bfree = 5; bavail = 4; files = 100; ffree = 50 })

collect_filesystem-IsMounted_example :
    All IsMounted (collect_filesystem naturals statfs (some mounts))
    × Distinct (mounts_of size_name (collect_filesystem naturals statfs (some mounts)))
collect_filesystem-IsMounted_example = collect_filesystem-IsMounted naturals statfs (some mounts)

two_mounts : length (collect_filesystem naturals statfs (some mounts)) ≡ 10
unfolding collect_filesystem scan_lines fields has_prefix among text_eq lookup insert
two_mounts = refl

abbrev dev : Text
dev =
    codes
      "Inter-|   Receive\n face |bytes\n    lo: 1 2 3 4 5 6 7 8 9 10 11 12 13 14 15 16\n  eth0: 21 2 3 4 5 6 7 8 9 10 11 12 13 14 15 16\n"

one_interface : length (collect_network naturals (some dev)) ≡ 8
unfolding collect_network scan_lines cut trim_space fields
one_interface = refl

loads :
    collect_loadavg naturals (some (codes "1 x 3 1/2 99"))
    ≡ plain_gauge naturals "node_load1" "1 minute load average." 1
      ∷ plain_gauge naturals "node_load15" "15 minute load average." 3
      ∷ []
unfolding collect_loadavg fields parse_nat
loads = refl

boot :
    collect_uptime naturals 1000 1001 (some (codes "400 1"))
    ≡ plain_gauge naturals "node_boot_time_seconds" "Node boot time in seconds since epoch." 600
      ∷ plain_gauge naturals "node_time_seconds" "Current system time in seconds since epoch." 1001
      ∷ []
unfolding collect_uptime fields parse_nat
boot = refl

collect-IsTyped_example :
    OnSome (All IsTyped) (collect_cpu naturals (some stat) (some stat))
    × All IsTyped (collect_memory naturals (some stat))
    × All IsTyped (collect_disk naturals (some stat))
    × All IsTyped (collect_filesystem naturals statfs (some stat))
    × All IsTyped (collect_network naturals (some stat))
    × All IsTyped (collect_loadavg naturals (some stat))
    × All IsTyped (collect_uptime naturals 1000 1001 (some stat))
collect-IsTyped_example = collect-IsTyped naturals statfs 1000 1001 (some stat) (some stat)
