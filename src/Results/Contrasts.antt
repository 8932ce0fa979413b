-- ===== src/Results/Contrasts.antt =====
-- src/omni_benchmark/sealed_results.py: the contrasts of two conditions, McNemar's tests with Holm's
-- adjustment, and the bootstrap samples. A p value is an exact fraction.
use omni_benchmark.Prelude.{
  ℕ, String, Bool, true, false, not, ◌&&◌, Option, none, some, List, [], ◌∷◌, ◌==◌, total, map,
  if◌then◌else◌,
}
use omni_benchmark.Sealed.{ScoringMode, Outcome}
use omni_benchmark.Results.{SealedScoredAttempt, Matrix, mode_score, repetitions}
use omni_benchmark.Results.Report.{outcome_of, is_correct, one_if, joined, rows_of, also}
use omni_benchmark.Results.Inference.{Fraction, exact_binomial_two_sided, holm}

abbrev pub Outcomes : Type 0
Outcomes = Option Outcome × Option Outcome

abbrev pub is_gain : Outcomes → Bool
is_gain pair = is_correct pair.0 && not (is_correct pair.1)

abbrev pub is_loss : Outcomes → Bool
is_loss pair = is_correct pair.1 && not (is_correct pair.0)

-- Whether a pair is not left out of the differences.
abbrev pub is_paired : Outcomes → Bool
is_paired (some after, some before) = true
is_paired _ = false

pub record Discordant : Type 0 where
  pub gains : ℕ
  pub losses : ℕ

-- A mean of differences: those of 1, those of -1, and the number of all.
pub record Difference : Type 0 where
  pub increases : ℕ
  pub decreases : ℕ
  pub observations : ℕ

abbrev pub over_one {ℓ} : {A B : Type ℓ} → (A → B) → Option A → Option B
over_one f none = none
over_one f (some x) = some (f x)

abbrev pub over_both {ℓ} : {A B : Type ℓ} → (A → A → B) → Option A → Option A → Option B
over_both f (some x) (some y) = some (f x y)
over_both f _ _ = none

module _ (mode : ScoringMode) where
  abbrev pub paired : List SealedScoredAttempt → List SealedScoredAttempt → List Outcomes
  paired [] befores = []
  paired (a ∷ afters) [] = []
  paired (a ∷ afters) (b ∷ befores) =
      (outcome_of (mode_score mode a), outcome_of (mode_score mode b)) ∷ paired afters befores

  abbrev pub counted : (Outcomes → Bool) → List Outcomes → ℕ
  counted test pairs = total (λ pair. one_if (test pair)) pairs

  abbrev pub discordant_of : List Outcomes → Discordant
  discordant_of pairs = record { gains = counted is_gain pairs; losses = counted is_loss pairs }

  -- The outcomes after and before, of the given repetitions of each question.
  unfoldable pub outcomes_of :
      Matrix → List String → String → String → List ℕ → Option (List Outcomes)
  unfolding rows_of
  outcomes_of matrix questions after before rs =
      over_both (λ xs ys. paired (joined mode xs) (joined mode ys))
        (rows_of matrix after rs questions) (rows_of matrix before rs questions)

  -- The gains and losses of `_contrast_report`.
  unfoldable pub discordant_counts : Matrix → List String → String → String → Option Discordant
  unfolding outcomes_of
  discordant_counts matrix questions after before =
      over_one discordant_of (outcomes_of matrix questions after before repetitions)

  -- The `estimator` of `_contrast_report`, where `none` inside is that nothing is paired.
  abbrev difference_of : List Outcomes → Option Difference
  difference_of pairs =
      if counted is_paired pairs == 0
      then none
      else some (record {
        increases = counted (λ pair. is_paired pair && is_gain pair) pairs;
        decreases = counted (λ pair. is_paired pair && is_loss pair) pairs;
        observations = counted is_paired pairs;
      })

  unfoldable pub estimator : Matrix → String → String → List String → Option (Option Difference)
  unfolding outcomes_of
  estimator matrix after before sampled =
      over_one difference_of (outcomes_of matrix sampled after before repetitions)

  -- The gains and losses of `_mcnemar_reports`, of the first repetition.
  unfoldable pub mcnemar_counts :
      Matrix → List String → List (String × String × String) → Option (List (String × ℕ × ℕ))
  unfolding outcomes_of
  mcnemar_counts matrix questions [] = some []
  mcnemar_counts matrix questions ((label, after, before) ∷ pairs) =
      also
        (over_one (λ found. (label, counted is_gain found, counted is_loss found))
          (outcomes_of matrix questions after before (1 ∷ [])))
        (mcnemar_counts matrix questions pairs)

  -- The reports that Holm's loop adjusts.
  unfoldable pub mcnemar_reports :
      Matrix → List String → Option (List (String × Fraction × Fraction))
  unfolding mcnemar_counts holm
  mcnemar_reports matrix questions =
      over_one (λ counts. holm (map (λ c. (c.0, exact_binomial_two_sided c.1 c.2)) counts))
        (mcnemar_counts matrix questions
          (("C2-C1", "C2", "C1") ∷ ("C3-C2", "C3", "C2") ∷ ("C4-C3", "C4", "C3") ∷ []))
