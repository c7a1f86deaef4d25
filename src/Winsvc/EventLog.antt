-- ===== src/Winsvc/EventLog.antt =====
-- internal/winsvc/service_windows.go: `WriteEventLogLines`.
use limiz.Base.{ℕ, Text, List, [], ◌∷◌, Option, none, some}
use limiz.Winsvc.{System, Op, ◌>>=◌, ret, call, acquire, holding, utf16_ptr}

abbrev pub eventlog_error_type : ℕ
eventlog_error_type = 1

abbrev pub eventlog_information_type : ℕ
eventlog_information_type = 4

-- the pointers that are made of the lines
unfoldable pub pointers : List Text → List Text
pointers [] = []
pointers (line ∷ lines) =
    let ptrs = pointers lines in elim (utf16_ptr line) [ none ↦ ptrs | some p ↦ p ∷ ptrs ]

module _ {W : Type 0} (sys : System W) where
  unfoldable pub report : ℕ → List Text → ℕ → Op W (Unit {0})
  report event_type [] h = ret tt
  report event_type (p ∷ ptrs) h = call (sys.report_event event_type (p ∷ ptrs)) h

  unfoldable pub report_from : ℕ → List Text → Option Text → Op W (Unit {0})
  report_from event_type lines none = ret tt
  report_from event_type lines (some source) = do
    h ← acquire (sys.register_source source)
    holding sys.deregister_source tt (report event_type (pointers lines)) h

  unfoldable pub write_event_log_lines : Text → List Text → ℕ → Op W (Unit {0})
  write_event_log_lines source [] event_type = ret tt
  write_event_log_lines source (line ∷ lines) event_type =
      report_from event_type (line ∷ lines) (utf16_ptr source)
