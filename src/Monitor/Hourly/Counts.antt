-- ===== src/Monitor/Hourly/Counts.antt =====
-- internal/monitor/cli.go: the counters of the hours.
use limiz.Base.{
  ℕ, ◌+◌, Text, List, [], ◌∷◌, Bool, true, false, ◌&&◌, none, some, if◌then◌else◌, text_eq,
  text_eq→eq, lookup, insert, lookup-insert, Map, ℤ, count_of, ◌≡◌, ◌∙◌, refl, arith, Bool-cases,
  Option-cases, inl, inr,
}
use limiz.Floats.{Floats}
use limiz.Monitor.Record.{Record, record_metric}
use limiz.Monitor.Summary.{is_error, is_metric, is_data}
use limiz.Monitor.Hourly.{
  HourBucket, Buckets, empty_bucket, count_type, count_record, add_hour, bucket_loop,
  bucket_records,
}

module _ (fl : Floats) (zero_float : fl.F) (hour_key : ℤ → Text) where
  open fl use {F}

  -- the bucket of a key, empty where there is none yet
  unfoldable pub bucket : Text → Map (HourBucket F) → HourBucket F
  unfolding lookup empty_bucket
  bucket key m = elim (lookup key m) [ none ↦ empty_bucket fl zero_float hour_key key | some b ↦ b ]

  -- whether a record falls in an hour
  abbrev pub falls_in : Text → Record F → Bool
  falls_in key r = text_eq (hour_key r.timestamp) key

  bucket-insert :
      (key k : Text) (b : HourBucket F) (m : Map (HourBucket F))
      → bucket key (insert k b m) ≡ (if text_eq k key then b else bucket key m)
  unfolding bucket
  bucket-insert key k b m = elim (Bool-cases (text_eq k key)) [
    | inl e ↦ rw (bucket, lookup-insert k key b m, e) refl
    | inr e ↦ rw (bucket, lookup-insert k key b m, e) refl
  ]

  buckets-add_hour :
      (st : Buckets F) (r : Record F)
      → (add_hour fl zero_float hour_key st r).buckets
        ≡ insert
            (hour_key r.timestamp)
            (count_record fl zero_float hour_key (bucket (hour_key r.timestamp) st.buckets) r)
            st.buckets
  unfolding add_hour bucket
  buckets-add_hour st r = elim (Option-cases (lookup (hour_key r.timestamp) st.buckets)) [
    | inl e ↦ rw (add_hour, bucket, e) refl
    | inr (b, e) ↦ rw (add_hour, bucket, e) refl
  ]

  bucket-add_hour :
      (key : Text) (st : Buckets F) (r : Record F)
      → bucket key (add_hour fl zero_float hour_key st r).buckets ≡ (
          if falls_in key r
          then count_record fl zero_float hour_key (bucket key st.buckets) r
          else bucket key st.buckets)
  bucket-add_hour key st r = rw (buckets-add_hour st r) (
      bucket-insert key (hour_key r.timestamp) _ st.buckets ∙ elim (Bool-cases (falls_in key r)) [
        | inl e ↦ rw (e, text_eq→eq (hour_key r.timestamp) key e) refl
        | inr e ↦ rw e refl
      ])

  -- what a record adds to a counter
  abbrev pub tally : Bool → ℕ
  tally b = if b then 1 else 0

  data-not-metric : (r : Record F) → is_metric r ≡ true → is_data r ≡ false
  data-not-metric r h = rw (text_eq→eq r.type record_metric h) (unfold text_eq in refl)

  module _ (b : HourBucket F) (r : Record F) where
    abbrev typed : HourBucket F
    typed = count_type fl zero_float hour_key b r

    abbrev counted : HourBucket F
    counted = count_record fl zero_float hour_key b r

    typed-metric : typed.metric_count ≡ b.metric_count + tally (is_metric r)
    unfolding count_type
    typed-metric = elim (Bool-cases (is_metric r)) [
      | inl m ↦ rw (count_type, m) refl
      | inr m ↦ elim (Bool-cases (is_data r)) [
        | inl d ↦ rw (count_type, m, d) (omega arith)
        | inr d ↦ rw (count_type, m, d) (omega arith)
      ]
    ]

    typed-data : typed.data_count ≡ b.data_count + tally (is_data r)
    unfolding count_type
    typed-data = elim (Bool-cases (is_metric r)) [
      | inl m ↦ rw (count_type, m, data-not-metric r m) (omega arith)
      | inr m ↦ elim (Bool-cases (is_data r)) [
        | inl d ↦ rw (count_type, m, d) refl
        | inr d ↦ rw (count_type, m, d) (omega arith)
      ]
    ]

    typed-errors : typed.errors ≡ b.errors
    unfolding count_type
    typed-errors = elim (Bool-cases (is_metric r)) [
      | inl m ↦ rw (count_type, m) refl
      | inr m ↦ elim (Bool-cases (is_data r)) [
        | inl d ↦ rw (count_type, m, d) refl
        | inr d ↦ rw (count_type, m, d) refl
      ]
    ]

    counted-metric : counted.metric_count ≡ b.metric_count + tally (is_metric r)
    unfolding count_record
    counted-metric = elim (Bool-cases (is_error r)) [
      | inl x ↦ rw (count_record, x) typed-metric
      | inr x ↦ rw (count_record, x) typed-metric
    ]

    counted-data : counted.data_count ≡ b.data_count + tally (is_data r)
    unfolding count_record
    counted-data = elim (Bool-cases (is_error r)) [
      | inl x ↦ rw (count_record, x) typed-data
      | inr x ↦ rw (count_record, x) typed-data
    ]

    counted-errors : counted.errors ≡ b.errors + tally (is_error r)
    unfolding count_record
    counted-errors = elim (Bool-cases (is_error r)) [
      | inl x ↦ rw (count_record, x) (omega (arith, typed-errors))
      | inr x ↦ rw (count_record, x) (omega (arith, typed-errors))
    ]

  -- a counter that grows by the records of one test
  loop-counter :
      (counter : HourBucket F → ℕ) (test : Record F → Bool)
      → ((b : HourBucket F) (r : Record F)
          → counter (count_record fl zero_float hour_key b r) ≡ counter b + tally (test r))
      → (key : Text) (st : Buckets F) (rs : List (Record F))
      → counter (bucket key (bucket_loop fl zero_float hour_key st rs).buckets)
        ≡ counter (bucket key st.buckets) + count_of (λ r. falls_in key r && test r) rs
  unfolding bucket_loop count_of
  loop-counter counter test step key st [] = omega arith
  loop-counter counter test step key st (r ∷ rs) =
      loop-counter counter test step key (add_hour fl zero_float hour_key st r) rs
      ∙ rw (bucket-add_hour key st r) (elim (Bool-cases (falls_in key r)) [
        | inl e ↦ rw (e, count_of) (rw (step (bucket key st.buckets) r) (ground arith))
        | inr e ↦ rw (e, count_of) refl
      ])

  abbrev none_yet : Buckets F
  none_yet = record { buckets = []; keys = [] }

  -- The bucket of an hour counts the metric collections, the data collections and the errors of that
  -- hour among the records; an hour without records has no bucket, or counts nothing.
  pub bucket_records_lem :
      (key : Text) (rs : List (Record F))
      → let b = bucket key (bucket_records fl zero_float hour_key rs).buckets in
        (b.metric_count ≡ count_of (λ r. falls_in key r && is_metric r) rs)
        × (b.data_count ≡ count_of (λ r. falls_in key r && is_data r) rs)
        × (b.errors ≡ count_of (λ r. falls_in key r && is_error r) rs)
  unfolding bucket_records bucket empty_bucket
  bucket_records_lem key rs = (
    omega (arith, loop-counter (λ b. b.metric_count) is_metric counted-metric key none_yet rs),
    omega (arith, loop-counter (λ b. b.data_count) is_data counted-data key none_yet rs),
    omega (arith, loop-counter (λ b. b.errors) is_error counted-errors key none_yet rs),
  )
