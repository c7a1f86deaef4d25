-- ===== src/Collectors/Linux/Filesystem/Mounts.antt =====
-- internal/collectors/filesystem_linux.go: which mounts have metrics.
use limiz.Base.{
  Text, Map, List, [], ◌∷◌, ◌++◌, Bool, true, false, not, ◌||◌, Option, none, some, codes, map,
  if◌then◌else◌, text_eq, text_eq_refl, lookup, lookup_text, insert, lookup-insert, All, All-append,
  All-mono, Distinct, ◌≡◌, ◌≢◌, refl, ap, arith, Bool-cases, inl, inr,
}
use limiz.Strings.Affix.{has_prefix}
use limiz.Strings.Fields.{fields}
use limiz.Strings.Lines.{scan_lines}
use limiz.Floats.{Floats}
use limiz.Collectors.Metric.{Metric}
use limiz.Collectors.Registry.{is_seen}
use limiz.Collectors.Linux.Filesystem.{
  ignored_fs_types, among, Statfs, mount_metrics, is_left_out, mount_loop, collect_filesystem,
}

is_seen-insert :
    (k j : Text) (seen : Map Bool)
    → is_seen j (insert k true seen) ≡ (if text_eq k j then true else is_seen j seen)
is_seen-insert k j seen = ground (arith, lookup-insert k j true seen)

neither : (a b c : Bool) → (a || (not b || c)) ≡ false → (a ≡ false) × (b ≡ true) × (c ≡ false)
neither true b c e = cc
neither false false c e = cc
neither false true c e = (refl, refl, e)

abbrev pub size_name : Text
size_name = codes "node_filesystem_size_bytes"

module _ {F : Type 0} where
  -- the mount points of the metrics of one name, in order
  unfoldable pub mounts_of : Text → List (Metric F) → List Text
  mounts_of name [] = []
  mounts_of name (m ∷ ms) =
      let rest = mounts_of name ms in
      if text_eq m.name name then lookup_text (codes "mountpoint") m.labels ∷ rest else rest

  mounts_of-append :
      (name : Text) (ms ns : List (Metric F))
      → mounts_of name (ms ++ ns) ≡ mounts_of name ms ++ mounts_of name ns
  unfolding mounts_of
  mounts_of-append name [] ns = refl
  mounts_of-append name (m ∷ ms) ns = elim (Bool-cases (text_eq m.name name)) [
    | inl e ↦
        rw e (ap (λ t. lookup_text (codes "mountpoint") m.labels ∷ t) (mounts_of-append name ms ns))
    | inr e ↦ rw e (mounts_of-append name ms ns)
  ]

  -- a metric of a mount with these fields, whose type is not ignored and whose device is a path
  abbrev pub IsMounted : Metric F → Type 0
  IsMounted m =
      (device : Text) × (mountpoint : Text) × (fstype : Text) × (m.labels
        ≡ (codes "device", device)
          ∷ (codes "mountpoint", mountpoint)
          ∷ (codes "fstype", fstype)
          ∷ [])
      × (among fstype ignored_fs_types ≡ false)
      × (has_prefix (codes "/") device ≡ true)

module _ (fl : Floats) (statfs : Text → Option Statfs) where
  open fl use {F}

  -- a mount has at most one metric of the name
  mount_metrics-All :
      (P : Text → Type 0) (d m t : Text) (stat : Option Statfs)
      → P m
      → All P (mounts_of size_name (mount_metrics fl statfs d m t stat))
  unfolding mounts_of mount_metrics text_eq lookup_text lookup
  mount_metrics-All P d m t none h = tt
  mount_metrics-All P d m t (some s) h = (h, tt)

  mount_metrics-Distinct :
      (d m t : Text) (stat : Option Statfs) (rest : List Text)
      → All (λ j. j ≢ m) rest
      → Distinct rest
      → Distinct (mounts_of size_name (mount_metrics fl statfs d m t stat) ++ rest)
  unfolding mounts_of mount_metrics text_eq lookup_text lookup
  mount_metrics-Distinct d m t none rest h k = k
  mount_metrics-Distinct d m t (some s) rest h k = (h, k)

  kept :
      (d m t : Text) (seen : Map Bool)
      → is_left_out fl statfs d m t seen ≡ false
      → (among t ignored_fs_types ≡ false)
        × (has_prefix (codes "/") d ≡ true)
        × (is_seen m seen ≡ false)
  unfolding is_left_out
  kept d m t seen e =
      neither (among t ignored_fs_types) (has_prefix (codes "/") d) (is_seen m seen) e

  unseen-insert :
      (m j : Text) (seen : Map Bool)
      → is_seen j (insert m true seen) ≡ false
      → (is_seen j seen ≡ false) × (j ≢ m)
  unseen-insert m j seen e = (
    ground (arith, is_seen-insert m j seen),
    λ q. cc (e, q, is_seen-insert m m seen, text_eq_refl m),
  )

  -- a mount point that has been seen comes no more
  Unseen-mount_loop :
      (ls : List (List Text)) (seen : Map Bool)
      → All (λ m. is_seen m seen ≡ false) (mounts_of size_name (mount_loop fl statfs ls seen))
  unfolding mount_loop
  Unseen-mount_loop [] seen = unfold mounts_of in tt
  Unseen-mount_loop ([] ∷ ls) seen = Unseen-mount_loop ls seen
  Unseen-mount_loop ((d ∷ []) ∷ ls) seen = Unseen-mount_loop ls seen
  Unseen-mount_loop ((d ∷ m ∷ []) ∷ ls) seen = Unseen-mount_loop ls seen
  Unseen-mount_loop ((d ∷ m ∷ t ∷ rest) ∷ ls) seen =
      elim (Bool-cases (is_left_out fl statfs d m t seen)) [
        | inl e ↦ rw e (Unseen-mount_loop ls seen)
        | inr e ↦
            let later = Unseen-mount_loop ls (insert m true seen) in
            rw (e, mounts_of-append)
              (All-append (λ j. is_seen j seen ≡ false) _ _
                (mount_metrics-All (λ j. is_seen j seen ≡ false) d m t (statfs m)
                  (kept d m t seen e).2)
                (All-mono _ _ _ (λ j h. (unseen-insert m j seen h).0) later))
      ]

  mount_loop-Distinct :
      (ls : List (List Text)) (seen : Map Bool)
      → Distinct (mounts_of size_name (mount_loop fl statfs ls seen))
  unfolding mount_loop
  mount_loop-Distinct [] seen = unfold mounts_of in tt
  mount_loop-Distinct ([] ∷ ls) seen = mount_loop-Distinct ls seen
  mount_loop-Distinct ((d ∷ []) ∷ ls) seen = mount_loop-Distinct ls seen
  mount_loop-Distinct ((d ∷ m ∷ []) ∷ ls) seen = mount_loop-Distinct ls seen
  mount_loop-Distinct ((d ∷ m ∷ t ∷ rest) ∷ ls) seen =
      elim (Bool-cases (is_left_out fl statfs d m t seen)) [
        | inl e ↦ rw e (mount_loop-Distinct ls seen)
        | inr e ↦
            rw (e, mounts_of-append)
              (mount_metrics-Distinct d m t (statfs m) _
                (All-mono _ _ _ (λ j h. (unseen-insert m j seen h).1)
                  (Unseen-mount_loop ls (insert m true seen)))
                (mount_loop-Distinct ls (insert m true seen)))
      ]

  mount_metrics-IsMounted :
      (d m t : Text) (stat : Option Statfs)
      → among t ignored_fs_types ≡ false
      → has_prefix (codes "/") d ≡ true
      → All IsMounted (mount_metrics fl statfs d m t stat)
  unfolding mount_metrics
  mount_metrics-IsMounted d m t none h k = tt
  mount_metrics-IsMounted d m t (some s) h k = (
    (d, m, t, refl, h, k),
    (
      (d, m, t, refl, h, k),
      ((d, m, t, refl, h, k), ((d, m, t, refl, h, k), ((d, m, t, refl, h, k), tt))),
    ),
  )

  mount_loop-IsMounted :
      (ls : List (List Text)) (seen : Map Bool) → All IsMounted (mount_loop fl statfs ls seen)
  unfolding mount_loop
  mount_loop-IsMounted [] seen = tt
  mount_loop-IsMounted ([] ∷ ls) seen = mount_loop-IsMounted ls seen
  mount_loop-IsMounted ((d ∷ []) ∷ ls) seen = mount_loop-IsMounted ls seen
  mount_loop-IsMounted ((d ∷ m ∷ []) ∷ ls) seen = mount_loop-IsMounted ls seen
  mount_loop-IsMounted ((d ∷ m ∷ t ∷ rest) ∷ ls) seen =
      elim (Bool-cases (is_left_out fl statfs d m t seen)) [
        | inl e ↦ rw e (mount_loop-IsMounted ls seen)
        | inr e ↦
            let (h, k, _) = kept d m t seen e in
            rw e (
              All-append IsMounted _ _ (mount_metrics-IsMounted d m t (statfs m) h k)
                (mount_loop-IsMounted ls (insert m true seen)))
      ]

  -- Every metric is of a mount whose type is not ignored and whose device begins with `/`, and no two
  -- size metrics are of one mount point.
  pub collect_filesystem-IsMounted :
      (mounts : Option Text)
      → All IsMounted (collect_filesystem fl statfs mounts)
        × Distinct (mounts_of size_name (collect_filesystem fl statfs mounts))
  unfolding collect_filesystem
  collect_filesystem-IsMounted none = (tt, unfold mounts_of in tt)
  collect_filesystem-IsMounted (some mounts) = (
    mount_loop-IsMounted (map fields (scan_lines mounts)) [],
    mount_loop-Distinct (map fields (scan_lines mounts)) [],
  )
