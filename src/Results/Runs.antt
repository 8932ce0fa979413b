-- ===== src/Results/Runs.antt =====
-- The runs of a question of a matrix that `_validated_matrix` has accepted.
use omni_benchmark.Prelude.{
  ℕ, refl, sym, ◌∙◌, ◌+◌, ◌≡◌, Bool, true, false, ◌&&◌, String, Option, none, some, List, [], ◌∷◌,
  all, All, All-map, All-zip, arith,
}
use omni_benchmark.Sealed.{ScoringMode, FailureClass}
use omni_benchmark.Results.{
  SealedScoredAttempt, ModeAttemptScore, scored, unscorable, mode_score, Row, conditions,
  repetitions, has_key, validated_disposition,
}
use omni_benchmark.Results.Validation.{
  is_complete, is_fixed, unscorable_failure, failure_discrete, holds,
}
use omni_benchmark.Results.Report.{
  is_scoreable, runs_of, is_scored, one_if, outcome_of, is_correct, is_wrong, is_refused,
}
use omni_benchmark.Results.Sums.{IsSettled}
use omni_benchmark.Results.Matrix.{all-All, AllIn, cell-found, IsValid}

holds-true : {A : Type 0} (d : Dec A) → holds d ≡ true → A
unfolding holds
holds-true (yes a) e = a
holds-true (no f) e = ground (arith, e)

abbrev scored_when : Option FailureClass → Bool
scored_when none = true
scored_when (some failure) = false

both_left : (a b : Bool) → (a && b) ≡ true → a ≡ true
both_left a b e = ground (arith, e)

module _ (mode : ScoringMode) where
  -- An accepted attempt of a question whose gold query fails in one way or does not fail.
  abbrev IsAccepted : Option FailureClass → SealedScoredAttempt → Type 0
  IsAccepted failure a = IsValid mode a × (failure ≡ unscorable_failure (mode_score mode a))

  is_fixed-IsAccepted :
      (row : Row)
      → is_fixed mode row ≡ true
      → AllIn (IsValid mode) row
      → (failure : Option FailureClass) × AllIn (IsAccepted failure) row
  unfolding is_fixed
  is_fixed-IsAccepted [] e h = ground (arith, e)
  is_fixed-IsAccepted (entry ∷ row) e h = (
    unscorable_failure (mode_score mode entry.1),
    (
      (h.0, refl),
      All-zip row (λ x v same. (v, holds-true _ same)) h.1
          (all-All
            (λ x. holds (
              failure_discrete (unscorable_failure (mode_score mode entry.1))
                (unscorable_failure (mode_score mode x.1))))
            row e),
    ),
  )

  score_parts :
      (score : ModeAttemptScore)
      → validated_disposition mode score ≡ none
      → one_if (is_correct (outcome_of score))
          + one_if (is_wrong (outcome_of score))
          + one_if (is_refused (outcome_of score))
        ≡ one_if (is_scored score)
  unfolding validated_disposition
  score_parts (unscorable failure) e = refl
  score_parts (scored result) e = ground (arith, e)

  score_level :
      (score : ModeAttemptScore) (failure : Option FailureClass)
      → failure ≡ unscorable_failure score
      → one_if (is_scored score) ≡ one_if (scored_when failure)
  score_level (unscorable f) failure e = rw e refl
  score_level (scored result) failure e = rw e refl

  abbrev pub HasSingle : Row → String → List SealedScoredAttempt → ℕ → Type 0
  HasSingle row c run r =
      (a : SealedScoredAttempt) × (runs_of row c (r ∷ []) ≡ some (a ∷ []))
      × (one_if (is_scored (mode_score mode a)) ≡ one_if (is_scoreable mode run))

  -- The runs of one condition are there, and are scored alike, also one by one.
  abbrev pub HasRuns : Row → String → Type 0
  HasRuns row c =
      (run : List SealedScoredAttempt) × (runs_of row c repetitions ≡ some run)
      × IsSettled mode run
      × All (HasSingle row c run) repetitions

  run_lem :
      (row : Row) (c : String) (failure : Option FailureClass)
      → all (λ r. has_key (c, r) row) repetitions ≡ true
      → AllIn (IsAccepted failure) row
      → HasRuns row c
  unfolding runs_of
  run_lem row c failure e h =
      let found = all-All (λ r. has_key (c, r) row) repetitions e in
      let one = cell-found (IsAccepted failure) (c, 1) row found.0 h in
      let two = cell-found (IsAccepted failure) (c, 2) row found.1.0 h in
      let three = cell-found (IsAccepted failure) (c, 3) row found.1.1.0 h in
      let part = λ (a : SealedScoredAttempt) (v : IsAccepted failure a).
        score_parts (mode_score mode a) v.0 in
      let level = λ (a : SealedScoredAttempt) (v : IsAccepted failure a).
        score_level (mode_score mode a) failure v.1 in
      (
        one.0 ∷ two.0 ∷ three.0 ∷ [],
        rw (one.1, two.1, three.1, runs_of) refl,
        record {
          three = refl;
          level = omega (arith, level one.0 one.2, level two.0 two.2, level three.0 three.2);
          parted = omega (arith, part one.0 one.2, part two.0 two.2, part three.0 three.2);
        },
        (
          (one.0, rw (one.1, runs_of) refl, refl),
          (
            (two.0, rw (two.1, runs_of) refl, level two.0 two.2 ∙ sym (level one.0 one.2)),
            (
              (
                three.0,
                rw (three.1, runs_of) refl,
                level three.0 three.2 ∙ sym (level one.0 one.2),
              ),
              tt,
            ),
          ),
        ),
      )

  pub row_lem :
      (row : Row)
      → is_complete row ≡ true
      → is_fixed mode row ≡ true
      → AllIn (IsValid mode) row
      → All (HasRuns row) conditions
  row_lem row complete fixed h =
      let accepted = is_fixed-IsAccepted row fixed h in
      All-map conditions (λ c e. run_lem row c accepted.0 e accepted.1)
        (all-All (λ c. all (λ r. has_key (c, r) row) repetitions) conditions
          (both_left _ _ complete))
