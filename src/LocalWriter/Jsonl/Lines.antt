-- ===== src/LocalWriter/Jsonl/Lines.antt =====
-- internal/localwriter/backend_jsonl.go: the lines that a write appends.
use limiz.Base.{
  ℕ, Text, List, [], ◌∷◌, ◌++◌, append_assoc, append-nil, Bool, true, none, some, text_eq_refl,
  lookup, lookup-insert, map, All, ◌≡◌, ◌∙◌, refl, ap,
}
use limiz.Floats.{Floats}
use limiz.Disk.{Disk, append_line}
use limiz.Collectors.Metric.{Metric}
use limiz.LocalWriter.Jsonl.{JsonlRecord, jsonl_record, write_loop, write_backend}

module _ (fl : Floats) (is_finite : fl.F → Bool) (rfc3339 : ℕ → Text) where
  open fl use {F}

  append_line_self :
      (path : Text) (l : JsonlRecord F) (lines : List (JsonlRecord F)) (disk : Disk (JsonlRecord F))
      → lookup path disk.files ≡ some lines
      → lookup path (append_line path l disk).files ≡ some (lines ++ l ∷ [])
  unfolding append_line
  append_line_self path l lines disk h =
      rw (append_line, h)
        (lookup-insert path path (lines ++ l ∷ []) disk.files ∙ rw (text_eq_refl path) refl)

  write_loop_lem :
      (path : Text) (ts : ℕ) (metrics : List (Metric F)) (lines : List (JsonlRecord F))
      (disk : Disk (JsonlRecord F))
      → All (λ m. is_finite m.value ≡ true) metrics
      → lookup path disk.files ≡ some lines
      → ((write_loop fl is_finite rfc3339 path ts metrics disk).0 ≡ none)
        × (lookup path (write_loop fl is_finite rfc3339 path ts metrics disk).1.files
            ≡ some (lines ++ map (jsonl_record fl is_finite rfc3339 ts) metrics))
  unfolding write_loop
  write_loop_lem path ts [] lines disk f h = (refl, rw (append-nil lines) h)
  write_loop_lem path ts (m ∷ ms) lines disk f h =
      let line = jsonl_record fl is_finite rfc3339 ts m in
      let (e, q) =
        write_loop_lem path ts ms (lines ++ line ∷ []) (append_line path line disk) f.1
          (append_line_self path line lines disk h) in
      rw (write_loop, f.0) (e, q ∙ ap some (append_assoc lines (line ∷ []) _))

  -- A write to the open file, of metrics with finite values, succeeds and appends one line for each
  -- metric, in their order, with its name, labels, value and type and the time of the write.
  pub write_backend_lem :
      (path : Text) (ts : ℕ) (metrics : List (Metric F)) (lines : List (JsonlRecord F))
      (disk : Disk (JsonlRecord F))
      → All (λ m. is_finite m.value ≡ true) metrics
      → lookup path disk.files ≡ some lines
      → ((write_backend fl is_finite rfc3339 (record { file = some path }) ts metrics disk).0
          ≡ none)
        × (lookup path
              (write_backend fl is_finite rfc3339
                (record { file = some path })
                ts
                metrics
                disk).1.files
            ≡ some (lines ++ map (jsonl_record fl is_finite rfc3339 ts) metrics))
  unfolding write_backend
  write_backend_lem = write_loop_lem
