-- ===== src/Collectors/Metric.antt =====
-- internal/collectors/registry.go: the metric, the collector and the registry.
use limiz.Base.{Text, Map, List, [], ◌∷◌, ◌++◌, codes}

-- `MetricType` is a string.
abbrev pub gauge : Text
gauge = codes "gauge"

abbrev pub counter : Text
counter = codes "counter"

-- The labels are listed in the order in which `range` visits the map. Go leaves that order open, so
-- a theorem about every list of labels is one about every order.
pub record Metric (F : Type 0) : Type 0 where
  pub name : Text
  pub help : Text
  pub type : Text
  pub labels : Map Text
  pub value : F

-- `Collect` reads the machine and may change it: `W` is the state of the world.
pub record Collector (W F : Type 0) : Type 0 where
  pub name : Text
  pub collect : W → W × List (Metric F)

pub record Registry (W F : Type 0) : Type 0 where
  pub collectors : List (Collector W F)

module _ {W F : Type 0} where
  unfoldable pub register : Registry W F → Collector W F → Registry W F
  register r c = record { collectors = r.collectors ++ c ∷ [] }

unfoldable pub new_registry : (W F : Type 0) → Registry W F
new_registry W F = record { collectors = [] }
