-- ===== src/Monitor/Summary/Grouping.antt =====
-- internal/monitor/cli.go: the slices that the loop fills, and the errors that are shown.
use limiz.Base.{
  ◌+◌, min, List, [], ◌∷◌, ◌++◌, append-nil, append_assoc, Bool, true, false, ◌&&◌, if◌then◌else◌,
  text_eq, select, length, length-drop, take-append-drop, text_eq→eq, take, ◌≡◌, ◌∙◌, refl, sym,
  arith, Bool-cases, inl, inr,
}
use limiz.Monitor.Record.{Record, record_metric}
use limiz.Monitor.Summary.{
  Groups, group, group_loop, add_record, is_metric, is_data, is_error, shown_errors, first_shown,
}

module _ {F : Type 0} where
  metric-not-data : (r : Record F) → is_metric r ≡ true → is_data r ≡ false
  metric-not-data r h = rw (text_eq→eq r.type record_metric h) (unfold text_eq in refl)

  -- a record behind those of a slice, where it passes the test
  abbrev add_if : Bool → List (Record F) → Record F → List (Record F)
  add_if b rs r = if b then rs ++ r ∷ [] else rs

  add_metrics :
      (g : Groups F) (r : Record F) → (add_record g r).metrics ≡ add_if (is_metric r) g.metrics r
  unfolding add_record
  add_metrics g r = elim (Bool-cases (is_metric r)) [
    | inl e ↦ rw (add_record, e) refl
    | inr e ↦ elim (Bool-cases (is_data r)) [
      | inl d ↦ rw (add_record, e, d) refl
      | inr d ↦ rw (add_record, e, d) refl
    ]
  ]

  add_datas : (g : Groups F) (r : Record F) → (add_record g r).datas ≡ add_if (is_data r) g.datas r
  unfolding add_record
  add_datas g r = elim (Bool-cases (is_metric r)) [
    | inl e ↦ rw (add_record, e, metric-not-data r e) refl
    | inr e ↦ elim (Bool-cases (is_data r)) [
      | inl d ↦ rw (add_record, e, d) refl
      | inr d ↦ rw (add_record, e, d) refl
    ]
  ]

  add_metric_errors :
      (g : Groups F) (r : Record F)
      → (add_record g r).metric_errors ≡ add_if (is_metric r && is_error r) g.metric_errors r
  unfolding add_record
  add_metric_errors g r = elim (Bool-cases (is_metric r)) [
    | inl e ↦ rw (add_record, e) refl
    | inr e ↦ elim (Bool-cases (is_data r)) [
      | inl d ↦ rw (add_record, e, d) refl
      | inr d ↦ rw (add_record, e, d) refl
    ]
  ]

  add_data_errors :
      (g : Groups F) (r : Record F)
      → (add_record g r).data_errors ≡ add_if (is_data r && is_error r) g.data_errors r
  unfolding add_record
  add_data_errors g r = elim (Bool-cases (is_metric r)) [
    | inl e ↦ rw (add_record, e, metric-not-data r e) refl
    | inr e ↦ elim (Bool-cases (is_data r)) [
      | inl d ↦ rw (add_record, e, d) refl
      | inr d ↦ rw (add_record, e, d) refl
    ]
  ]

  -- a slice that grows by the records of one test holds them in the end, in their order
  loop-slice :
      (slice : Groups F → List (Record F)) (test : Record F → Bool)
      → ((g : Groups F) (r : Record F) → slice (add_record g r) ≡ add_if (test r) (slice g) r)
      → (g : Groups F) (rs : List (Record F)) → slice (group_loop g rs) ≡ slice g ++ select test rs
  unfolding group_loop select
  loop-slice slice test step g [] = sym (append-nil (slice g))
  loop-slice slice test step g (r ∷ rs) =
      loop-slice slice test step (add_record g r) rs
      ∙ rw (step g r) (elim (Bool-cases (test r)) [
        | inl e ↦ rw (e, select) (append_assoc (slice g) (r ∷ []) (select test rs))
        | inr e ↦ rw (e, select) refl
      ])

  -- The summary's slices hold, in the order of the log, the metric collections, the data collections,
  -- and those of each that failed; records of other types are left out.
  pub group_lem :
      (rs : List (Record F))
      → ((group rs).metrics ≡ select is_metric rs)
        × ((group rs).datas ≡ select is_data rs)
        × ((group rs).metric_errors ≡ select (λ r. is_metric r && is_error r) rs)
        × ((group rs).data_errors ≡ select (λ r. is_data r && is_error r) rs)
  unfolding group
  group_lem rs = (
    loop-slice (λ g. g.metrics) is_metric add_metrics _ rs,
    loop-slice (λ g. g.datas) is_data add_datas _ rs,
    loop-slice (λ g. g.metric_errors) (λ r. is_metric r && is_error r) add_metric_errors _ rs,
    loop-slice (λ g. g.data_errors) (λ r. is_data r && is_error r) add_data_errors _ rs,
  )

  -- At most the last twenty errors are shown, and the errors in front of them are as many as the
  -- summary says.
  pub shown_errors_lem :
      (g : Groups F)
      → let all = g.metric_errors ++ g.data_errors in
        (take (first_shown (length all)) all ++ shown_errors g ≡ all)
        × (length (shown_errors g) ≡ min 20 (length all))
        × (first_shown (length all) + length (shown_errors g) ≡ length all)
  unfolding shown_errors
  shown_errors_lem g =
      let all = g.metric_errors ++ g.data_errors in
      (
        take-append-drop (first_shown (length all)) all,
        ground (arith, length-drop (first_shown (length all)) all),
        ground (arith, length-drop (first_shown (length all)) all),
      )
