-- ===== src/Schedule/Checked.antt =====
-- freeze_b_schedule.py: what `_schedule_components` makes of its inputs.
use omni_benchmark.Action.{raise_if_rule, raise_if, Result, ok, raise}
use omni_benchmark.Schedule.{
  conditions, scheduled, Sources, ScheduleRecord, ScheduleError, index_out_of_range, incomplete,
  is_distinct, check_identities, check_decoded, committed_test_ids, schedule_of,
  schedule_components,
}
use omni_benchmark.Prelude.{
  map, ℕ, ◌*◌, ◌≤◌, ◌<◌, ◌==◌, ◌≡◌, String, Bool, true, false, not, Option, none, some, List, [],
  ◌∷◌, length, total, arith,
}
use omni_benchmark.Prelude.Text.{occurrences, at_most_once}
use omni_benchmark.Schedule.Complete.{all_records-total, length-all_records, ordered_records-all}

-- What is wrong with the inputs, and not with the construction of the schedule.
abbrev pub IsOfInputs : ScheduleError → Type 0
IsOfInputs index_out_of_range = ⊥
IsOfInputs incomplete = ⊥
IsOfInputs other = Unit

module _ (sources : Sources) where
  IsChecked : ℕ → Result ScheduleError (List String) → Type 0
  IsChecked question_count (raise e) = IsOfInputs e
  IsChecked question_count (ok ids) =
      (length ids ≡ question_count) × (0 < question_count) × ((s : String) → occurrences s ids ≤ 1)

  pub is_distinct-once :
      (ids : List String) → is_distinct ids ≡ true → (s : String) → occurrences s ids ≤ 1
  unfolding is_distinct
  is_distinct-once [] h s = omega arith
  is_distinct-once (t ∷ ids) h s =
      at_most_once s t ids (ground (arith, h)) (is_distinct-once ids (ground (arith, h)) s)

  raised :
      (question_count : ℕ) (e : ScheduleError) → IsOfInputs e → IsChecked question_count (raise e)
  unfolding IsChecked
  raised question_count e h = h

  -- One of the tests that raise.
  guarded :
      (question_count : ℕ) (t : Bool) (e : ScheduleError)
      (rest : Result ScheduleError (List String))
      → IsOfInputs e
      → (t ≡ false → IsChecked question_count rest)
      → IsChecked question_count (raise_if t e rest)
  guarded question_count t e rest h k =
      raise_if_rule (IsChecked question_count) t e rest (raised question_count e h) k

  accepted :
      (question_count : ℕ) (ids : List String)
      → (question_count == 0) ≡ false
      → not (length ids == question_count) ≡ false
      → not (is_distinct ids) ≡ false
      → IsChecked question_count (ok ids)
  unfolding IsChecked
  accepted question_count ids positive count once =
      (ground (arith, count), ground (arith, positive), is_distinct-once ids (ground (arith, once)))

  check_identities-IsChecked :
      (ids : List String) (question_count : ℕ)
      → IsChecked question_count (check_identities sources ids question_count)
  unfolding check_identities
  check_identities-IsChecked ids question_count = guarded question_count _ _ _ tt (λ e.
      guarded question_count _ _ _ tt (λ positive. guarded question_count _ _ _ tt (λ count.
        guarded question_count _ _ _ tt (λ once.
          guarded question_count _ _ _ tt
            (λ sorted. accepted question_count ids positive count once)))))

  check_decoded-IsChecked :
      (question_count : ℕ) (decoded : Option (List String))
      → IsChecked question_count (check_decoded sources decoded question_count)
  check_decoded-IsChecked question_count none = raised question_count _ tt
  check_decoded-IsChecked question_count (some ids) = check_identities-IsChecked ids question_count

  committed_test_ids-IsChecked :
      (content : sources.Bytes) (question_count : ℕ)
      → IsChecked question_count (committed_test_ids sources content question_count)
  unfolding committed_test_ids
  committed_test_ids-IsChecked content question_count =
      guarded question_count _ _ _ tt (λ e. check_decoded-IsChecked question_count _)

  -- The identities of a schedule are as many as was asked for, at least one and none twice; its records
  -- are each question's in each repetition under each condition.
  pub IsScheduled : ℕ → Result ScheduleError (List String × List ScheduleRecord) → Type 0
  IsScheduled question_count (raise e) = IsOfInputs e
  IsScheduled question_count (ok (ids, records)) =
      (length ids ≡ question_count)
      × (0 < question_count)
      × ((s : String) → occurrences s ids ≤ 1)
      × (length records ≡ question_count * 12)
      × ((f : ScheduleRecord → ℕ)
          → total f records
            ≡ total
                (λ s.
                  total (λ repetition. total f (map (scheduled s repetition) conditions))
                    (1 ∷ 2 ∷ 3 ∷ []))
                ids)

  schedule_of-IsScheduled :
      (seed : String) (question_count : ℕ) (r : Result ScheduleError (List String))
      → IsChecked question_count r
      → IsScheduled question_count (schedule_of sources seed r)
  unfolding IsScheduled IsChecked
  schedule_of-IsScheduled seed question_count (raise e) h = h
  schedule_of-IsScheduled seed question_count (ok ids) h =
      rw (ordered_records-all sources seed ids) (
        h.0,
        h.1,
        h.2,
        omega (arith, length-all_records sources seed ids, h.0),
        all_records-total sources seed ids,
      )

  -- Whatever its inputs, `_schedule_components` never ends with its internal error: it raises an error
  -- of its inputs, or its schedule has each attempt once, for each of the different questions, the
  -- three repetitions and the four conditions, twelve for each question.
  pub schedule_components-IsScheduled :
      (content : sources.Bytes) (seed : String) (question_count : ℕ)
      → IsScheduled question_count (schedule_components sources content seed question_count)
  unfolding schedule_components IsScheduled
  schedule_components-IsScheduled content seed question_count =
      raise_if_rule (IsScheduled question_count) _ _ _ tt (λ approved.
        schedule_of-IsScheduled seed question_count _
          (committed_test_ids-IsChecked content question_count))
