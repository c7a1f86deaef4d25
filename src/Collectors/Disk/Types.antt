-- ===== src/Collectors/Disk/Types.antt =====
-- internal/collectors/disk_linux.go: the types of the metrics.
use limiz.Base.{
  refl, Text, List, [], ◌∷◌, Option, none, some, ltb, length, All, All-append, Bool-cases, inl, inr,
}
use limiz.Strings.Affix.{has_prefix, has_suffix}
use limiz.Strings.Fields.{fields}
use limiz.Strings.Lines.{scan_lines}
use limiz.Floats.{Floats}
use limiz.Collectors.Types.{IsTyped, type_of}
use limiz.Collectors.Disk.{field, is_partition, disk_metrics, disk_fields, disk_loop, collect_disk}

module _ (fl : Floats) where
  disk_metrics-IsTyped : (d : Text) (fs : List Text) → All IsTyped (disk_metrics fl d fs)
  unfolding disk_metrics type_of has_suffix has_prefix
  disk_metrics-IsTyped d fs =
      (refl, (refl, (refl, (refl, (refl, (refl, (refl, (refl, (refl, (refl, (refl, tt)))))))))))

  disk_fields-IsTyped : (fs : List Text) → All IsTyped (disk_fields fl fs)
  unfolding disk_fields
  disk_fields-IsTyped fs = elim (Bool-cases (ltb (length fs) 14)) [
    | inl short ↦ rw (disk_fields, short) tt
    | inr long ↦ elim (Bool-cases (is_partition (field fs 2))) [
      | inl part ↦ rw (disk_fields, long, part) tt
      | inr whole ↦ rw (disk_fields, long, whole) (disk_metrics-IsTyped (field fs 2) fs)
    ]
  ]

  disk_loop-IsTyped : (ls : List Text) → All IsTyped (disk_loop fl ls)
  unfolding disk_loop
  disk_loop-IsTyped [] = tt
  disk_loop-IsTyped (line ∷ ls) =
      All-append IsTyped _ _ (disk_fields-IsTyped (fields line)) (disk_loop-IsTyped ls)

  pub collect_disk-IsTyped : (stats : Option Text) → All IsTyped (collect_disk fl stats)
  unfolding collect_disk
  collect_disk-IsTyped none = tt
  collect_disk-IsTyped (some stats) = disk_loop-IsTyped (scan_lines stats)
