-- ===== src/Schedule.antt =====
-- src/omni_benchmark/freeze_b_schedule.py: the sealed schedule. What it takes from elsewhere is the
-- record `Sources`; a digest is its hexadecimal digits, which are ordered as its bytes are.
pub mod Complete
pub mod Checked
pub mod Gaps
use omni_benchmark.Action.{raise_if, Result, ok, raise}
use Prim.Native.String.{◌++◌ as append}
use text.Mathlib.Text.{◌==◌ as str_eq}
use omni_benchmark.Prelude.Text.{text_le, member}
use omni_benchmark.Prelude.{
  all, ℕ, ◌+◌, ◌*◌, ◌/◌, ◌%◌, String, Bool, true, false, not, ◌&&◌, ◌||◌, Option, none, some, List,
  [], ◌∷◌, ◌++◌, map, ◌==◌, any, length, get_elem?, count_up, sort_by, is_empty, if◌then◌else◌,
}

pub record Sources : Type 1 where
  pub Bytes : Type 0
  -- `content.splitlines(keepends=True)`
  pub splitlines : Bytes → List Bytes
  -- `line.endswith(b"\n")` and `line == b"\n"`
  pub ends_line : Bytes → Bool
  pub is_newline : Bytes → Bool
  -- `line[:-1].decode("utf-8")`
  pub decode : Bytes → Option String
  -- `_INSTANCE_ID.fullmatch` and `_SEED.fullmatch`
  pub is_instance_id : String → Bool
  pub is_seed : String → Bool
  -- `ContentPolicy.identifier_is_safe`
  pub identifier_is_safe : String → Bool
  pub sha256 : String → String

pub data ScheduleError : Type 0 where
  seed_invalid lines_invalid not_utf8 identity_invalid count_not_positive : ScheduleError
  count_differs duplicate_id not_sorted index_out_of_range incomplete : ScheduleError

pub record ScheduleRecord : Type 0 where
  pub attempt_id : String
  pub condition : String
  pub instance_id : String
  pub repetition : ℕ

-- `CONDITIONS`
abbrev pub conditions : List String
conditions = "C1" ∷ "C2" ∷ "C3" ∷ "C4" ∷ []

-- `str(repetition)`, of a repetition from one to three
abbrev pub digit : ℕ → String
digit n = if n == 1 then "1" else if n == 2 then "2" else "3"

-- `enumerate(offsets, start=1)`
abbrev pub offsets : ℕ → List (ℕ × ℕ)
offsets question_count = (1, 0) ∷ (2, (question_count + 2) / 3) ∷ (3, (2 * question_count) / 3) ∷ []

-- The record of the comprehension in `_ordered_records`.
unfoldable pub scheduled : String → ℕ → String → ScheduleRecord
scheduled instance_id repetition condition = record {
  attempt_id =
      append "sealed:"
        (append instance_id (append ":" (append condition (append ":" (digit repetition)))));
  condition = condition;
  instance_id = instance_id;
  repetition = repetition;
}

abbrev pub extend {ℓ} : {A : Type ℓ} → Option (List A) → Option (List A) → Option (List A)
extend none rest = none
extend (some xs) none = none
extend (some xs) (some ys) = some (xs ++ ys)

-- The records that the rounds of a loop extend the list by.
abbrev pub gather {ℓ} : {A B : Type ℓ} → (A → Option (List B)) → List A → Option (List B)
gather f [] = some []
gather f (x ∷ xs) = extend (f x) (gather f xs)

-- `expected_test_output_count`, of a positive number of questions
abbrev pub expected_test_output_count : ℕ → ℕ
expected_test_output_count question_count = question_count * length conditions * 3

-- `len(set(ids)) == len(ids)`
unfoldable pub is_distinct : List String → Bool
is_distinct [] = true
is_distinct (s ∷ ids) = not (member s ids) && is_distinct ids

abbrev pub is_same : List String → List String → Bool
is_same [] [] = true
is_same (s ∷ ids) (t ∷ others) = str_eq s t && is_same ids others
is_same ids others = false

module _ (sources : Sources) where
  -- What `_order_key` digests, from the seed and its parts.
  unfoldable pub order_key : String → List String → String
  order_key seed parts = sources.sha256 (
      append "omni-livesqlbench-large-v1-sealed-schedule-v1"
        (append "\0" (append seed (framed parts))))
    where
      framed : List String → String
      framed [] = ""
      framed (part ∷ rest) = append "\0" (append part (framed rest))

  unfoldable pub question_order : String → List String → List String
  question_order seed instance_ids =
      sort_by
        (λ s t.
          text_le (order_key seed ("question" ∷ s ∷ [])) (order_key seed ("question" ∷ t ∷ [])))
        instance_ids

  unfoldable pub condition_order : String → String → ℕ → List String
  condition_order seed instance_id repetition =
      let key =
        λ (c : String). order_key seed ("condition" ∷ instance_id ∷ digit repetition ∷ c ∷ []) in
      sort_by (λ c d. text_le (key c) (key d)) conditions

  abbrev pub block_for : String → ℕ → Option String → Option (List ScheduleRecord)
  block_for seed repetition none = none
  block_for seed repetition (some instance_id) =
      some (map (scheduled instance_id repetition) (condition_order seed instance_id repetition))

  -- A block: the body of the inner loop of `_ordered_records`; `none` is an index out of range.
  unfoldable pub block : String → List String → ℕ → ℕ → ℕ × ℕ → Option (List ScheduleRecord)
  block seed order question_count position (repetition, offset) =
      block_for seed repetition (get_elem? order ((position + offset) % question_count))

  abbrev pub check_complete :
      ℕ → Option (List ScheduleRecord) → Result ScheduleError (List ScheduleRecord)
  check_complete question_count none = raise index_out_of_range
  check_complete question_count (some records) =
      if length records == expected_test_output_count question_count
      then ok records
      else raise incomplete

  -- `_ordered_records`, of one question at least
  unfoldable pub ordered_records : List String → String → Result ScheduleError (List ScheduleRecord)
  unfolding question_order block
  ordered_records instance_ids seed =
      let question_count = length instance_ids in
      let order = question_order seed instance_ids in
      check_complete question_count (
        gather
          (λ position. gather (block seed order question_count position) (offsets question_count))
          (count_up 0 question_count))

  abbrev pub decode_all : List sources.Bytes → Option (List String)
  decode_all lines =
      gather (λ line. elim (sources.decode line) [ none ↦ none | some s ↦ some (s ∷ []) ]) lines

  abbrev pub is_identity : String → Bool
  is_identity s = sources.is_instance_id s && sources.identifier_is_safe s

  -- The end of `_committed_test_ids`, from the identities that were decoded.
  unfoldable pub check_identities : List String → ℕ → Result ScheduleError (List String)
  unfolding is_distinct
  check_identities instance_ids question_count =
      raise_if (not (all is_identity instance_ids)) identity_invalid (
        raise_if (question_count == 0) count_not_positive (
          raise_if (not (length instance_ids == question_count)) count_differs (
            raise_if (not (is_distinct instance_ids)) duplicate_id (
              raise_if (not (is_same (sort_by text_le instance_ids) instance_ids)) not_sorted
                (ok instance_ids)))))

  abbrev pub check_decoded : Option (List String) → ℕ → Result ScheduleError (List String)
  check_decoded none question_count = raise not_utf8
  check_decoded (some instance_ids) question_count = check_identities instance_ids question_count

  -- `_committed_test_ids`
  unfoldable pub committed_test_ids : sources.Bytes → ℕ → Result ScheduleError (List String)
  unfolding check_identities
  committed_test_ids content question_count =
      let lines = sources.splitlines content in
      raise_if
        (is_empty lines
          || any (λ line. not (sources.ends_line line) || sources.is_newline line) lines)
        lines_invalid (check_decoded (decode_all lines) question_count)

  -- `_approved_seed`
  abbrev pub is_approved : String → Bool
  is_approved seed = sources.is_seed seed && sources.identifier_is_safe seed

  abbrev pub with_records :
      List String
      → Result ScheduleError (List ScheduleRecord)
      → Result ScheduleError (List String × List ScheduleRecord)
  with_records instance_ids (raise e) = raise e
  with_records instance_ids (ok records) = ok (instance_ids, records)

  abbrev pub schedule_of :
      String
      → Result ScheduleError (List String)
      → Result ScheduleError (List String × List ScheduleRecord)
  schedule_of seed (raise e) = raise e
  schedule_of seed (ok instance_ids) = with_records instance_ids (ordered_records instance_ids seed)

  -- `_schedule_components`, less the bytes of the records
  unfoldable pub schedule_components :
      sources.Bytes → String → ℕ → Result ScheduleError (List String × List ScheduleRecord)
  unfolding committed_test_ids ordered_records
  schedule_components content seed question_count =
      raise_if (not (is_approved seed)) seed_invalid
        (schedule_of seed (committed_test_ids content question_count))
