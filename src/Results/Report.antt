-- ===== src/Results/Report.antt =====
-- src/omni_benchmark/sealed_results.py: `_condition_report` and `_condition_estimator`, with a rate as
-- its numerator and denominator. A missing key is `none`.
use text.Mathlib.Text.{◌==◌ as str_eq}
use omni_benchmark.Prelude.{
  ℕ, ◌+◌, ◌-◌, String, Bool, true, false, Option, none, some, List, [], ◌∷◌, ◌++◌, map, ◌==◌,
  length, keep, sort_by, total, if◌then◌else◌,
}
use omni_benchmark.Prelude.Text.{text_le}
use omni_benchmark.Sealed.{ScoringMode, Outcome, correct, wrong_answer, refused_or_error}
use omni_benchmark.Results.{
  SealedScoredAttempt, ModeAttemptScore, scored, unscorable, Row, Matrix, mode_score, repetitions,
  row_of, same_key,
}

-- `_outcome`
abbrev pub outcome_of : ModeAttemptScore → Option Outcome
outcome_of (scored result) = result.outcome
outcome_of (unscorable failure) = none

abbrev pub is_scored : ModeAttemptScore → Bool
is_scored (scored result) = true
is_scored (unscorable failure) = false

abbrev pub is_correct : Option Outcome → Bool
is_correct (some correct) = true
is_correct _ = false

abbrev pub is_wrong : Option Outcome → Bool
is_wrong (some wrong_answer) = true
is_wrong _ = false

abbrev pub is_refused : Option Outcome → Bool
is_refused (some refused_or_error) = true
is_refused _ = false

abbrev pub one_if : Bool → ℕ
one_if true = 1
one_if false = 0

unfoldable pub cell : String × ℕ → Row → Option SealedScoredAttempt
cell key [] = none
cell key (entry ∷ row) =
    let later = cell key row in if same_key key entry.0 then some entry.1 else later

abbrev pub also {ℓ} : {A : Type ℓ} → Option A → Option (List A) → Option (List A)
also (some x) (some xs) = some (x ∷ xs)
also _ _ = none

-- `[matrix[question][(condition, repetition)] for repetition in REPETITIONS]`
unfoldable pub runs_of : Row → String → List ℕ → Option (List SealedScoredAttempt)
unfolding cell
runs_of row condition [] = some []
runs_of row condition (r ∷ rs) = also (cell (condition, r) row) (runs_of row condition rs)

-- The runs of each question.
unfoldable pub rows_of :
    Matrix → String → List ℕ → List String → Option (List (List SealedScoredAttempt))
unfolding runs_of row_of
rows_of matrix condition rs [] = some []
rows_of matrix condition rs (question ∷ questions) =
    also (runs_of (row_of question matrix) condition rs) (rows_of matrix condition rs questions)

-- `_ratio`
unfoldable pub ratio : ℕ → ℕ → Option (ℕ × ℕ)
ratio numerator denominator = if denominator == 0 then none else some (numerator, denominator)

pub record ConditionReport : Type 0 where
  pub correct_count : ℕ
  pub wrong_count : ℕ
  pub refused_or_error_count : ℕ
  pub scheduled_attempts : ℕ
  pub scoreable_attempts : ℕ
  pub unscorable_attempts : ℕ
  pub scoreable_questions : ℕ
  pub pass_0_count : ℕ
  pub pass_1_count : ℕ
  pub pass_2_count : ℕ
  pub pass_3_count : ℕ
  pub correctness_flip_count : ℕ
  pub errored_count : ℕ
  pub mean_accuracy : Option (ℕ × ℕ)
  pub wrong_rate : Option (ℕ × ℕ)
  pub refused_or_error_rate : Option (ℕ × ℕ)
  pub error_rate : Option (ℕ × ℕ)
  pub correctness_flip_rate : Option (ℕ × ℕ)
  pub pass_3_rate : Option (ℕ × ℕ)

-- What an estimator returns, or its SealedResultError, or a missing key.
pub data Estimated (A : Type 0) : Type 0 where
  estimated : A → Estimated A
  no_observations key_error : Estimated A

module _ (mode : ScoringMode) where
  -- How many of the attempts have an outcome that passes a test.
  abbrev pub amount : (Option Outcome → Bool) → List SealedScoredAttempt → ℕ
  amount test attempts = total (λ a. one_if (test (outcome_of (mode_score mode a)))) attempts

  abbrev pub scoreable : List SealedScoredAttempt → ℕ
  scoreable attempts = total (λ a. one_if (is_scored (mode_score mode a))) attempts

  -- Whether the first run of a question is scored.
  abbrev pub is_scoreable : List SealedScoredAttempt → Bool
  is_scoreable [] = false
  is_scoreable (a ∷ runs) = is_scored (mode_score mode a)

  -- `reliability[f"pass_{n}"]`
  abbrev pub passes : ℕ → List (List SealedScoredAttempt) → ℕ
  passes n runs = length (keep (λ r. amount is_correct r == n) (keep is_scoreable runs))

  abbrev pub joined : List (List SealedScoredAttempt) → List SealedScoredAttempt
  joined [] = []
  joined (r ∷ runs) = r ++ joined runs

  -- The report from the runs of each question.
  unfoldable pub report_of : List (List SealedScoredAttempt) → ConditionReport
  unfolding ratio
  report_of runs =
      let rows = joined runs in
      let denominator = scoreable rows in
      let questions = length (keep is_scoreable runs) in
      let flips = passes 1 runs + passes 2 runs in
      let errored = total (λ a. one_if (str_eq a.generation_outcome "errored")) rows in
      record {
        correct_count = amount is_correct rows;
        wrong_count = amount is_wrong rows;
        refused_or_error_count = amount is_refused rows;
        scheduled_attempts = length rows;
        scoreable_attempts = denominator;
        unscorable_attempts = length rows - denominator;
        scoreable_questions = questions;
        pass_0_count = passes 0 runs;
        pass_1_count = passes 1 runs;
        pass_2_count = passes 2 runs;
        pass_3_count = passes 3 runs;
        correctness_flip_count = flips;
        errored_count = errored;
        mean_accuracy = ratio (amount is_correct rows) denominator;
        wrong_rate = ratio (amount is_wrong rows) denominator;
        refused_or_error_rate = ratio (amount is_refused rows) denominator;
        error_rate = ratio errored (length rows);
        correctness_flip_rate = ratio flips questions;
        pass_3_rate = ratio (passes 3 runs) questions;
      }

  abbrev over_runs {ℓ} :
      {A : Type ℓ}
      → (List (List SealedScoredAttempt) → A)
      → Option (List (List SealedScoredAttempt))
      → Option A
  over_runs f none = none
  over_runs f (some runs) = some (f runs)

  -- The counts and rates of `_condition_report`, without its terminal failure classes.
  unfoldable pub condition_counts : Matrix → List String → String → Option ConditionReport
  unfolding rows_of report_of
  condition_counts matrix questions condition =
      over_runs report_of (rows_of matrix condition repetitions questions)

  -- `_condition_estimator`, where `none` is a missing key and a `none` inside it that nothing is
  -- scoreable.
  unfoldable pub condition_estimator :
      Matrix → List String → String → List ℕ → Option (Option (ℕ × ℕ))
  unfolding rows_of ratio
  condition_estimator matrix questions condition rs =
      over_runs (λ runs. ratio (amount is_correct (joined runs)) (scoreable (joined runs)))
        (rows_of matrix condition rs questions)

  abbrev and_accuracy :
      Option (Option (ℕ × ℕ)) → Estimated (List (ℕ × ℕ)) → Estimated (List (ℕ × ℕ))
  and_accuracy none rest = key_error
  and_accuracy (some none) rest = no_observations
  and_accuracy (some (some accuracy)) (estimated accuracies) = estimated (accuracy ∷ accuracies)
  and_accuracy (some (some accuracy)) key_error = key_error
  and_accuracy (some (some accuracy)) no_observations = no_observations

  -- `per_repetition_accuracy`
  unfoldable pub accuracies_of : Matrix → List String → String → List ℕ → Estimated (List (ℕ × ℕ))
  unfolding condition_estimator
  accuracies_of matrix questions condition [] = estimated []
  accuracies_of matrix questions condition (r ∷ rs) =
      and_accuracy (condition_estimator matrix questions condition (r ∷ []))
        (accuracies_of matrix questions condition rs)

  abbrev with_counts :
      Option ConditionReport → Estimated (List (ℕ × ℕ)) → Estimated (ConditionReport × List (ℕ × ℕ))
  with_counts none accuracies = key_error
  with_counts (some counts) key_error = key_error
  with_counts (some counts) no_observations = no_observations
  with_counts (some counts) (estimated accuracies) = estimated (counts, accuracies)

  -- `_condition_report`, without its terminal failure classes.
  unfoldable pub condition_report :
      Matrix → List String → String → Estimated (ConditionReport × List (ℕ × ℕ))
  unfolding condition_counts accuracies_of
  condition_report matrix questions condition =
      with_counts (condition_counts matrix questions condition)
        (accuracies_of matrix questions condition repetitions)

-- `tuple(sorted(matrix))`
unfoldable pub questions_of : Matrix → List String
questions_of matrix = sort_by text_le (map (λ entry. entry.0) matrix)
