-- ===== src/Examples/Scores.antt =====
-- The twelve attempts at one question: the first run of each condition is correct, the second wrong
-- and the third without an answer.
use Prim.Native.String.{◌++◌ as append}
use omni_benchmark.Prelude.{sort_by}
use omni_benchmark.Prelude.{
  ℕ, suc, zero, ◌≡◌, refl, String, true, false, none, some, List, [], ◌∷◌, map, length, All,
}
use omni_benchmark.Sealed.{official, Outcome, correct, wrong_answer, refused_or_error}
use omni_benchmark.Results.{
  ModeAttemptScore, scored, SealedScoredAttempt, Row, Matrix, ok, conditions,
}
use omni_benchmark.Results.Validation.{validated_matrix}
use omni_benchmark.Results.Report.{condition_estimator}
use omni_benchmark.Results.Inference.{
  Fraction, at_most, IsAdjusted, holm, exact_binomial_two_sided, holm-IsAdjusted,
}
use omni_benchmark.Results.Bootstrap.{bootstrap_sample, bootstrap_sample-member}
use omni_benchmark.Prelude.Text.{member}
use omni_benchmark.Results.Balance.{IsBalanced, validated_matrix-IsBalanced}

abbrev outcome_at : ℕ → Outcome
outcome_at (suc zero) = correct
outcome_at (suc (suc zero)) = wrong_answer
outcome_at _ = refused_or_error

abbrev name_of : ℕ → String
name_of (suc zero) = "1"
name_of (suc (suc zero)) = "2"
name_of _ = "3"

abbrev digest : String
digest = "0123456789abcdef0123456789abcdef0123456789abcdef0123456789abcdef"

abbrev score_at : ℕ → ModeAttemptScore
score_at r = scored (record {
  scorer_identity = "official_soft_ex";
  scorer_version = "livesqlbench-soft-ex-e15cd221-v1";
  outcome = some (outcome_at r);
  failure_origin = none;
  failure_class = none;
  rerun_eligible = false;
  candidate_row_limit_exceeded = false;
  gold_row_limit_exceeded = false;
})

abbrev attempt_at : String → ℕ → SealedScoredAttempt
attempt_at c r = record {
  attempt_id = append c (name_of r);
  condition = c;
  repetition = r;
  generation_sha256 = digest;
  generation_record_sha256 = digest;
  question_key = "museum";
  generation_outcome = "answered";
  official_score = score_at r;
  sensitivity_score = score_at r;
}

abbrev entry_at : String → ℕ → (String × ℕ) × SealedScoredAttempt
entry_at c r = ((c, r), attempt_at c r)

abbrev entries : List String → Row
entries [] = []
entries (c ∷ cs) = entry_at c 1 ∷ entry_at c 2 ∷ entry_at c 3 ∷ entries cs

abbrev matrix : Matrix
matrix = ("museum", entries conditions) ∷ []

abbrev attempts : List SealedScoredAttempt
attempts = map (λ entry. entry.1) (entries conditions)

accepted : validated_matrix official attempts ≡ ok matrix
unfolding validated_matrix
accepted = refl

third :
    condition_estimator official matrix ("museum" ∷ []) "C2" (1 ∷ 2 ∷ 3 ∷ []) ≡ some (some (1, 3))
unfolding condition_estimator
third = refl

abbrev discordant : List (String × ℕ × ℕ)
discordant = ("C2-C1", 5, 1) ∷ ("C3-C2", 2, 2) ∷ ("C4-C3", 0, 3) ∷ []

validated_matrix-IsBalanced_example :
    All (λ after. All (IsBalanced official matrix after) conditions) conditions
validated_matrix-IsBalanced_example = validated_matrix-IsBalanced official attempts matrix accepted

holm-IsAdjusted_example :
    (map {B = String × Fraction}
        (λ r. (r.0, r.1))
        (holm (map (λ c. (c.0, exact_binomial_two_sided c.1 c.2)) discordant))
      ≡ sort_by
          (λ x y. at_most x.1 y.1)
          (map (λ c. (c.0, exact_binomial_two_sided c.1 c.2)) discordant))
    × IsAdjusted
        (record { numerator = 0; denominator = 1 })
        (holm (map (λ c. (c.0, exact_binomial_two_sided c.1 c.2)) discordant))
holm-IsAdjusted_example = holm-IsAdjusted discordant

abbrev three : List String
three = "museum" ∷ "library" ∷ "archive" ∷ []

bootstrap_sample-member_example :
    (sample : List String) × (bootstrap_sample (λ s. 7) (λ n. "1") three 2 ≡ some sample)
    × (length sample ≡ 3)
    × All (λ q. member q three ≡ true) sample
bootstrap_sample-member_example = bootstrap_sample-member (λ s. 7) (λ n. "1") three 2
