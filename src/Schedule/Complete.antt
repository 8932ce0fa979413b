-- ===== src/Schedule/Complete.antt =====
-- freeze_b_schedule.py: the schedule has each attempt once.
use omni_benchmark.Prelude.{
  ℕ, ◌+◌, ◌*◌, ◌%◌, ◌<◌, ◌==◌, ==_iff, ◌≡◌, refl, ap, sym, ◌∙◌, String, true, Option, some, List,
  [], ◌∷◌, map, length, get_or, get_elem?-get_or, count_up, concat_map, All, All-All, All-count_up,
  total, total-map, total-sort_by, total_ext, total-swap, total-rotate, total-get_or,
  total-concat_map, total-length, arith,
}
use native.Mathlib.Nat.{mod-lt}
use omni_benchmark.Action.{ok}
use omni_benchmark.Schedule.{
  Sources, ScheduleRecord, conditions, offsets, scheduled, gather, question_order, condition_order,
  block, ordered_records, expected_test_output_count,
}

-- A loop whose body always has a result.
pub gather-concat_map {ℓ} :
    {A B : Type ℓ} (f : A → Option (List B)) (g : A → List B) (xs : List A)
    → All (λ x. f x ≡ some (g x)) xs
    → gather f xs ≡ some (concat_map g xs)
gather-concat_map f g [] h = refl
gather-concat_map f g (x ∷ xs) h = rw (h.0, gather-concat_map f g xs h.1) refl

twelve_each : (ids : List String) → total (λ s. 12) ids ≡ length ids * 4 * 3
twelve_each [] = refl
twelve_each (s ∷ ids) = omega (arith, twelve_each ids)

module _ (sources : Sources) (seed : String) (instance_ids : List String) where
  abbrev pub order : List String
  order = question_order sources seed instance_ids

  pub order-total : (f : String → ℕ) → total f order ≡ total f instance_ids
  unfolding question_order
  order-total f = total-sort_by f _ instance_ids

  pub order-length : length order ≡ length instance_ids
  order-length = omega (arith, total-length order, total-length instance_ids, order-total (λ _. 1))

  -- The question of a place in a round.
  abbrev pub asked_at : ℕ → ℕ → String
  asked_at position offset = get_or "" order ((position + offset) % length instance_ids)

  abbrev pub block_of : ℕ → ℕ × ℕ → List ScheduleRecord
  block_of position (repetition, offset) =
      let instance_id = asked_at position offset in
      map (scheduled instance_id repetition) (condition_order sources seed instance_id repetition)

  abbrev pub round : ℕ → List ScheduleRecord
  round position = concat_map (block_of position) (offsets (length instance_ids))

  abbrev pub all_records : List ScheduleRecord
  all_records = concat_map round (count_up 0 (length instance_ids))

  block-found :
      (position : ℕ) (entry : ℕ × ℕ)
      → 0 < length instance_ids
      → block sources seed order (length instance_ids) position entry
        ≡ some (block_of position entry)
  unfolding block
  block-found position (repetition, offset) h =
      let place : (position + offset) % length instance_ids < length order =
        omega (arith, order-length, mod-lt (position + offset) h) in
      rw (get_elem?-get_or "" order ((position + offset) % length instance_ids) place) refl

  abbrev body : ℕ → Option (List ScheduleRecord)
  body position =
      gather (block sources seed order (length instance_ids) position)
        (offsets (length instance_ids))

  body-round : (position : ℕ) → 0 < length instance_ids → body position ≡ some (round position)
  body-round position h =
      gather-concat_map (block sources seed order (length instance_ids) position)
        (block_of position) (offsets (length instance_ids))
        (All-All (offsets (length instance_ids)) (λ entry. block-found position entry h))

  -- What the nested loops of `_ordered_records` gather.
  pub loops_end : gather body (count_up 0 (length instance_ids)) ≡ some all_records
  loops_end =
      gather-concat_map body round (count_up 0 (length instance_ids))
        (All-count_up 0 (length instance_ids) (λ i l. body-round i (omega (arith, l))))

  -- The records of one question in one repetition.
  abbrev pub repetition_of : ℕ → String → List ScheduleRecord
  repetition_of repetition instance_id = map (scheduled instance_id repetition) conditions

  total-block_of :
      (f : ScheduleRecord → ℕ) (position : ℕ) (entry : ℕ × ℕ)
      → total f (block_of position entry)
        ≡ total f (repetition_of entry.0 (asked_at position entry.1))
  unfolding condition_order
  total-block_of f position (repetition, offset) =
      let instance_id = asked_at position offset in
      total-map f (scheduled instance_id repetition)
        (condition_order sources seed instance_id repetition)
      ∙ total-sort_by _ _ conditions
      ∙ sym (total-map f (scheduled instance_id repetition) conditions)

  -- The blocks with one offset, over all positions, have each question once.
  total_offset :
      (g : String → ℕ) (offset : ℕ)
      → total (λ position. g (asked_at position offset)) (count_up 0 (length instance_ids))
        ≡ total g instance_ids
  total_offset g offset =
      let at = λ (i : ℕ). g (get_or "" order i) in
      total-rotate at (length instance_ids) offset
      ∙ ap (λ n. total at (count_up 0 n)) (sym order-length)
      ∙ total-get_or g "" order
      ∙ order-total g

  -- A total over all records is the total over the questions, the repetitions and the conditions.
  pub all_records-total :
      (f : ScheduleRecord → ℕ)
      → total f all_records
        ≡ total
            (λ s. total (λ repetition. total f (repetition_of repetition s)) (1 ∷ 2 ∷ 3 ∷ []))
            instance_ids
  all_records-total f =
      let entries = offsets (length instance_ids) in
      let positions = count_up 0 (length instance_ids) in
      let here = λ (position : ℕ) (entry : ℕ × ℕ).
        total f (repetition_of entry.0 (asked_at position entry.1)) in
      total-concat_map f round positions
      ∙ total_ext (λ position. total f (round position)) (λ position. total (here position) entries)
          positions
          (λ position.
            total-concat_map f (block_of position) entries
            ∙ total_ext (λ entry. total f (block_of position entry)) (here position) entries
                (total-block_of f position))
      ∙ total-swap here positions entries
      ∙ total_ext (λ entry. total (λ position. here position entry) positions)
          (λ entry. total (λ s. total f (repetition_of entry.0 s)) instance_ids) entries
          (λ entry. total_offset (λ s. total f (repetition_of entry.0 s)) entry.1)
      ∙ total-swap (λ (entry : ℕ × ℕ) s. total f (repetition_of entry.0 s)) entries instance_ids

  pub length-all_records : length all_records ≡ length instance_ids * 4 * 3
  length-all_records =
      omega (arith, total-length all_records, all_records-total (λ _. 1), twelve_each instance_ids)

  pub ordered_records-all : ordered_records sources instance_ids seed ≡ ok all_records
  unfolding ordered_records
  ordered_records-all = rw (loops_end, fits) refl
    where
      fits : (length all_records == expected_test_output_count (length instance_ids)) ≡ true
      fits = (==_iff _ _).1 length-all_records
