-- ===== src/Monitor/Record.antt =====
-- internal/monitor/store.go: the records, and what a file of the log holds.
use limiz.Base.{Text, codes, ℤ}

abbrev pub record_metric : Text
record_metric = codes "metric"

abbrev pub record_data : Text
record_data = codes "data"

pub record Record (F : Type 0) : Type 0 where
  pub timestamp : ℤ
  pub type : Text
  pub duration_ms : F
  pub error : Text

-- What `json.Decoder` finds at its place in a file: a record, a value of another shape, which it
-- steps over, a closing bracket, at which `More` is false, or a syntax error, which it stays at.
pub data Item (F : Type 0) : Type 0 where
  entry : Record F → Item F
  mistyped : Item F
  closing : Item F
  broken : Item F
