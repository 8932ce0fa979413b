-- ===== src/Results/Balance.antt =====
-- What the reports and the contrasts of a validated matrix say together.
use mathlib.Core.Path.{subst}
use omni_benchmark.Prelude.{
  ℕ, ◌<◌, ◌⊎◌, keep, refl, sym, ◌∙◌, ◌+◌, ◌≡◌, not, ◌&&◌, String, Option, some, List, [], ◌∷◌,
  length, All, All-map, arith,
}
use omni_benchmark.Sealed.{ScoringMode, Outcome}
use omni_benchmark.Results.{SealedScoredAttempt, Matrix, ok, conditions, mode_score}
use omni_benchmark.Results.Validation.{validated_matrix}
use omni_benchmark.Results.Report.{
  estimated, no_observations, condition_counts, is_scoreable, ConditionReport, condition_report,
  questions_of, report_of, amount, is_correct, one_if, joined, outcome_of,
}
use omni_benchmark.Results.Sums.{IsConsistent, report_of-IsConsistent}
use omni_benchmark.Results.Contrasts.{
  Discordant, discordant_counts, outcomes_of, discordant_of, paired, counted, is_gain, is_loss,
}
use omni_benchmark.Results.Rows.{HasRows, validated_matrix-HasRows}

balance_one :
    (a b : Option Outcome)
    → one_if (is_correct a) + one_if (is_correct b && not (is_correct a))
      ≡ one_if (is_correct b) + one_if (is_correct a && not (is_correct b))
balance_one a b = ground arith

module _ (mode : ScoringMode) where
  report_lem :
      (matrix : Matrix) (c : String) (rows : HasRows mode matrix c)
      → (condition_counts mode matrix (questions_of matrix) c ≡ some (report_of mode rows.0))
        × IsConsistent (report_of mode rows.0) (length matrix)
  unfolding condition_counts
  report_lem matrix c rows = (
    rw (rows.1, condition_counts) refl,
    subst (IsConsistent (report_of mode rows.0)) rows.3 (report_of-IsConsistent mode rows.0 rows.2),
  )

  -- A condition has counts that fit together. Where some question is scoreable it has a report, with an
  -- accuracy for each repetition, and where none is there is a SealedResultError.
  abbrev pub IsReported : Matrix → String → Type 0
  IsReported matrix c =
      (counts : ConditionReport) × IsConsistent counts (length matrix)
      × (((counts.scoreable_questions ≡ 0)
            × (condition_report mode matrix (questions_of matrix) c ≡ no_observations))
          ⊎ ((accuracies : List (ℕ × ℕ)) × (0 < counts.scoreable_questions)
              × (length accuracies ≡ 3)
              × (condition_report mode matrix (questions_of matrix) c
                  ≡ estimated (counts, accuracies))))

  module _ (matrix : Matrix) (c : String) (questions : List String)
      (runs : List (List SealedScoredAttempt)) where
    abbrev scored_questions : ℕ
    scored_questions = length (keep (is_scoreable mode) runs)

  balance_lem :
      (afters befores : List SealedScoredAttempt)
      → length afters ≡ length befores
      → amount mode is_correct afters + counted mode is_loss (paired mode afters befores)
        ≡ amount mode is_correct befores + counted mode is_gain (paired mode afters befores)
  balance_lem [] [] e = refl
  balance_lem [] (b ∷ befores) e = absurd (omega (arith, e))
  balance_lem (a ∷ afters) [] e = absurd (omega (arith, e))
  balance_lem (a ∷ afters) (b ∷ befores) e = omega (
    arith,
    balance_one (outcome_of (mode_score mode a)) (outcome_of (mode_score mode b)),
    balance_lem afters befores (omega (arith, e)),
  )

  -- The gains and losses of two conditions make up the difference of what is correct.
  abbrev pub IsBalanced : Matrix → String → String → Type 0
  IsBalanced matrix after before =
      (found : Discordant) × (later earlier : ConditionReport) × (discordant_counts mode matrix
          (questions_of matrix) after before
        ≡ some found)
      × (condition_counts mode matrix (questions_of matrix) after ≡ some later)
      × (condition_counts mode matrix (questions_of matrix) before ≡ some earlier)
      × (later.correct_count + found.losses ≡ earlier.correct_count + found.gains)

  balanced_lem :
      (matrix : Matrix) (after before : String)
      → HasRows mode matrix after
      → HasRows mode matrix before
      → IsBalanced matrix after before
  unfolding discordant_counts outcomes_of report_of
  balanced_lem matrix after before xs ys =
      let x = report_lem matrix after xs in
      let y = report_lem matrix before ys in
      (
        discordant_of mode (paired mode (joined mode xs.0) (joined mode ys.0)),
        report_of mode xs.0,
        report_of mode ys.0,
        rw (xs.1, ys.1, outcomes_of, discordant_counts) refl,
        x.0,
        y.0,
        balance_lem (joined mode xs.0) (joined mode ys.0) (x.1.scheduled ∙ sym y.1.scheduled),
      )

  -- If `_validated_matrix` accepts the attempts, then for any two of the four conditions, no key is
  -- missing where `_contrast_report` counts gains and losses and `_condition_report` what is correct,
  -- and what is correct after exceeds what is correct before by the gains less the losses.
  pub validated_matrix-IsBalanced :
      (attempts : List SealedScoredAttempt) (matrix : Matrix)
      → validated_matrix mode attempts ≡ ok matrix
      → All (λ after. All (IsBalanced matrix after) conditions) conditions
  validated_matrix-IsBalanced attempts matrix e =
      let rows = validated_matrix-HasRows mode attempts matrix e in
      All-map conditions
        (λ after xs. All-map conditions (λ before ys. balanced_lem matrix after before xs ys) rows)
        rows
