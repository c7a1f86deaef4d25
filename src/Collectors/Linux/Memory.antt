-- ===== src/Collectors/Linux/Memory.antt =====
-- internal/collectors/memory_linux.go.
pub mod Types
pub mod Meminfo
use limiz.Base.{
  ℕ, Text, Map, List, [], ◌∷◌, ◌++◌, Bool, true, false, Option, none, some, codes, if◌then◌else◌,
  text_eq, lookup,
}
use limiz.Strings.Affix.{trim_suffix}
use limiz.Strings.Fields.{fields}
use limiz.Strings.Lines.{scan_lines}
use limiz.Floats.{Floats}
use limiz.Collectors.Metric.{Metric, gauge}

-- the fields of /proc/meminfo that are wanted, with the names of their metrics
abbrev pub mem_fields : Map Text
mem_fields =
    (codes "MemTotal", codes "node_memory_MemTotal_bytes")
    ∷ (codes "MemFree", codes "node_memory_MemFree_bytes")
    ∷ (codes "MemAvailable", codes "node_memory_MemAvailable_bytes")
    ∷ (codes "Buffers", codes "node_memory_Buffers_bytes")
    ∷ (codes "Cached", codes "node_memory_Cached_bytes")
    ∷ (codes "SwapTotal", codes "node_memory_SwapTotal_bytes")
    ∷ (codes "SwapFree", codes "node_memory_SwapFree_bytes")
    ∷ (codes "SwapCached", codes "node_memory_SwapCached_bytes")
    ∷ (codes "Active", codes "node_memory_Active_bytes")
    ∷ (codes "Inactive", codes "node_memory_Inactive_bytes")
    ∷ (codes "Dirty", codes "node_memory_Dirty_bytes")
    ∷ (codes "Writeback", codes "node_memory_Writeback_bytes")
    ∷ (codes "Slab", codes "node_memory_Slab_bytes")
    ∷ (codes "SReclaimable", codes "node_memory_SReclaimable_bytes")
    ∷ (codes "SUnreclaim", codes "node_memory_SUnreclaim_bytes")
    ∷ (codes "Mapped", codes "node_memory_Mapped_bytes")
    ∷ (codes "Shmem", codes "node_memory_Shmem_bytes")
    ∷ (codes "HugePages_Total", codes "node_memory_HugePages_Total")
    ∷ (codes "HugePages_Free", codes "node_memory_HugePages_Free")
    ∷ (codes "Hugepagesize", codes "node_memory_Hugepagesize_bytes")
    ∷ []

-- `len(parts) >= 3 && parts[2] == "kB"`, on the parts behind the second
is_kb : List Text → Bool
unfolding text_eq
is_kb [] = false
is_kb (unit ∷ rest) = text_eq unit (codes "kB")

module _ (fl : Floats) where
  open fl use {F, parse_float, of_nat, mul}

  abbrev pub memory_metric : Text → Text → F → Metric F
  memory_metric name key v = record {
    name = name;
    help = codes "Memory information field " ++ (key ++ codes ".");
    type = gauge;
    labels = [];
    value = v;
  }

  memory_value : Text → Text → F × Bool → List Text → List (Metric F)
  unfolding is_kb
  memory_value name key (v, false) rest = []
  memory_value name key (v, true) rest =
      memory_metric name key (if is_kb rest then mul v (of_nat 1024) else v) ∷ []

  -- the parts of a line; the value is read only of a field that is wanted
  memory_parts : List Text → List (Metric F)
  unfolding memory_value
  memory_parts (a ∷ b ∷ rest) =
      let key = trim_suffix (codes ":") a in
      elim (lookup key mem_fields) [
        | none ↦ []
        | some name ↦ memory_value name key (parse_float b) rest
      ]
  memory_parts _ = []

  memory_loop : List Text → List (Metric F)
  unfolding memory_parts
  memory_loop [] = []
  memory_loop (line ∷ ls) = memory_parts (fields line) ++ memory_loop ls

  unfoldable pub collect_memory : Option Text → List (Metric F)
  unfolding memory_loop
  collect_memory none = []
  collect_memory (some meminfo) = memory_loop (scan_lines meminfo)
