-- ===== src/Tests/DiskStats.antt =====
-- internal/collectors/disk_linux.go at concrete inputs.
use limiz.Base.{Text, ◌++◌, ◌≡◌, true, refl, some, codes, length}
use limiz.Collectors.Disk.{is_partition, collect_disk}
use limiz.Tests.Numbers.{naturals}

abbrev stats : Text
stats =
    codes "   8       0 sda 10 20 30 4000 50 60 70 8000 1 9000 11000 0 0\n"
    ++ codes "   8       1 sda1 1 2 3 4 5 6 7 8 9 10 11 0 0\n"
    ++ codes " 259       0 nvme0n1 1 2 3 4 5 6 7 8 9 10 11\n"
    ++ codes " 179       0 mmcblk0 1 2 3\n"

two_disks : length (collect_disk naturals (some stats)) ≡ 22
unfolding collect_disk
two_disks = refl

-- a whole SD card counts as a partition
sd_card : is_partition (codes "mmcblk0") ≡ true
unfolding is_partition
sd_card = refl
