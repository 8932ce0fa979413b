-- ===== src/Examples/Schedules.antt =====
-- A schedule of four questions, where a digest is the text itself.
use omni_benchmark.Schedule.{
  is_distinct, Sources, scheduled, question_order, condition_order, order_key, schedule_components,
}
use omni_benchmark.Prelude.{
  ◌+◌, ◌≤◌, ◌≡◌, ◌/◌, refl, String, true, false, List, [], ◌∷◌, some, length, get_elem?, sort_by,
  insert_by,
}
use omni_benchmark.Schedule.Complete.{all_records, ordered_records-all}
use omni_benchmark.Schedule.Checked.{IsScheduled, schedule_components-IsScheduled, is_distinct-once}
use omni_benchmark.Schedule.Gaps.{gap, ordered_records-gap}

abbrev four_ids : List String
four_ids = "a" ∷ "b" ∷ "c" ∷ "d" ∷ []

abbrev pub plain : Sources
plain = record {
  Bytes = String;
  splitlines = λ content. four_ids;
  ends_line = λ line. true;
  is_newline = λ line. false;
  decode = λ line. some line;
  is_instance_id = λ s. true;
  is_seed = λ s. true;
  identifier_is_safe = λ s. true;
  sha256 = λ s. s;
}

schedule_components-IsScheduled_example :
    IsScheduled plain 4 (schedule_components plain "ids" "seed" 4)
schedule_components-IsScheduled_example = schedule_components-IsScheduled plain "ids" "seed" 4

first_of_a : get_elem? (all_records plain "seed" four_ids) 0 ≡ some (scheduled "a" 1 "C1")
unfolding question_order condition_order order_key scheduled sort_by insert_by
first_of_a = refl

second_of_a : get_elem? (all_records plain "seed" four_ids) 28 ≡ some (scheduled "a" 2 "C1")
unfolding question_order condition_order order_key scheduled sort_by insert_by
second_of_a = refl

ordered_records-gap_example :
    (4 ≤ gap (0 / 4) (28 / 4) + 5) × (length four_ids ≡ 101 → 98 ≤ gap (0 / 4) (28 / 4))
unfolding scheduled is_distinct
ordered_records-gap_example =
    ordered_records-gap plain "seed" four_ids (all_records plain "seed" four_ids) 0 28
      (scheduled "a" 1 "C1") (scheduled "a" 2 "C1") (is_distinct-once plain four_ids refl)
      (ordered_records-all plain "seed" four_ids) first_of_a second_of_a refl (λ e. cc)
