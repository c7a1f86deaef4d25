-- ===== src/FolderSize/HumanSize.antt =====
-- `humanSize` of plugins-src/folder-size/main.go.
use limiz.Base.{
  ℕ, ◌*◌, ◌^◌, ◌≤◌, ◌<◌, Text, ◌++◌, codes, ◌≡◌, arith, refl, Bool-cases, inl, inr, ltb, pos, false,
}
use limiz.Floats.{Floats}
use limiz.FolderSize.{human_nat, human_size, scaled, kb, mb, gb, tb}

pub data SizeUnit : Type 0 where
  kilobyte megabyte gigabyte terabyte : SizeUnit

abbrev pub unit_size : SizeUnit → ℕ
unit_size kilobyte = 1024
unit_size megabyte = 1024 ^ 2
unit_size gigabyte = 1024 ^ 3
unit_size terabyte = 1024 ^ 4

abbrev pub unit_label : SizeUnit → Text
unit_label kilobyte = codes " KB"
unit_label megabyte = codes " MB"
unit_label gigabyte = codes " GB"
unit_label terabyte = codes " TB"

module _ (fl : Floats) (format_2f : fl.F → Text) where
  open fl use {of_nat, div}

  -- From 1024 bytes on and below 1024^5, the size is written in the unit of which it holds at least one
  -- and less than 1024.
  pub human_size_bounds :
      (n : ℕ)
      → 1024 ≤ n
      → n < 1024 ^ 5
      → (u : SizeUnit) × (human_size fl format_2f (pos n)
          ≡ format_2f (div (of_nat n) (of_nat (unit_size u))) ++ unit_label u)
        × (unit_size u ≤ n)
        × (n < 1024 * unit_size u)
  unfolding human_size human_nat scaled
  human_size_bounds n lo hi = elim (Bool-cases (ltb n tb)) [
    | inr e ↦ (terabyte, rw e refl, ground arith, ground arith)
    | inl e ↦ elim (Bool-cases (ltb n gb)) [
      | inr e' ↦ (gigabyte, rw (e, e') refl, ground arith, ground arith)
      | inl e' ↦ elim (Bool-cases (ltb n mb)) [
        | inr e'' ↦ (megabyte, rw (e, e', e'') refl, ground arith, ground arith)
        | inl e'' ↦ (
          kilobyte,
          let k : ltb n kb ≡ false = ground arith in rw (e, e', e'', k) refl,
          ground arith,
          ground arith,
        )
      ]
    ]
  ]
