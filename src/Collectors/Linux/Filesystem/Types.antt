-- ===== src/Collectors/Linux/Filesystem/Types.antt =====
-- internal/collectors/filesystem_linux.go: the types of the metrics.
use limiz.Base.{
  refl, Text, Map, List, [], ◌∷◌, Bool, true, Option, none, some, insert, map, All, All-append,
  Bool-cases, inl, inr,
}
use limiz.Strings.Affix.{has_prefix, has_suffix}
use limiz.Strings.Fields.{fields}
use limiz.Strings.Lines.{scan_lines}
use limiz.Floats.{Floats}
use limiz.Collectors.Types.{IsTyped, type_of}
use limiz.Collectors.Linux.Filesystem.{
  Statfs, stat_metrics, mount_metrics, is_left_out, mount_loop, collect_filesystem,
}

module _ (fl : Floats) (statfs : Text → Option Statfs) where
  mount_metrics-IsTyped :
      (d m t : Text) (stat : Option Statfs) → All IsTyped (mount_metrics fl statfs d m t stat)
  unfolding mount_metrics stat_metrics type_of has_suffix has_prefix
  mount_metrics-IsTyped d m t none = tt
  mount_metrics-IsTyped d m t (some stat) = (refl, (refl, (refl, (refl, (refl, tt)))))

  mount_loop-IsTyped :
      (ls : List (List Text)) (seen : Map Bool) → All IsTyped (mount_loop fl statfs ls seen)
  unfolding mount_loop
  mount_loop-IsTyped [] seen = tt
  mount_loop-IsTyped ([] ∷ ls) seen = mount_loop-IsTyped ls seen
  mount_loop-IsTyped ((d ∷ []) ∷ ls) seen = mount_loop-IsTyped ls seen
  mount_loop-IsTyped ((d ∷ m ∷ []) ∷ ls) seen = mount_loop-IsTyped ls seen
  mount_loop-IsTyped ((d ∷ m ∷ t ∷ rest) ∷ ls) seen =
      elim (Bool-cases (is_left_out fl statfs d m t seen)) [
        | inl e ↦ rw (mount_loop, e) (mount_loop-IsTyped ls seen)
        | inr e ↦
            rw (mount_loop, e)
              (All-append IsTyped _ _ (mount_metrics-IsTyped d m t (statfs m))
                (mount_loop-IsTyped ls (insert m true seen)))
      ]

  pub collect_filesystem-IsTyped :
      (mounts : Option Text) → All IsTyped (collect_filesystem fl statfs mounts)
  unfolding collect_filesystem
  collect_filesystem-IsTyped none = tt
  collect_filesystem-IsTyped (some mounts) = mount_loop-IsTyped (map fields (scan_lines mounts)) []
