-- ===== src/Results/Sums.antt =====
-- How the counts of a report fit together, where each question's runs are all scored or all not.
use omni_benchmark.Prelude.{
  refl, ℕ, ◌+◌, ◌*◌, ◌≤◌, ◌≡◌, Bool, true, false, ◌&&◌, Option, List, [], ◌∷◌, ◌==◌, length, keep,
  total-append, length-append, All, arith,
}
use omni_benchmark.Sealed.{ScoringMode, Outcome}
use omni_benchmark.Results.{SealedScoredAttempt, mode_score}
use omni_benchmark.Results.Report.{
  outcome_of, is_scored, is_correct, is_wrong, is_refused, one_if, ConditionReport, amount,
  scoreable, is_scoreable, passes, joined, report_of,
}

-- The sums of a report on some number of questions.
pub record IsConsistent (report : ConditionReport) (questions : ℕ) : Type 0 where
  pub scheduled : report.scheduled_attempts ≡ 3 * questions
  pub rest : report.scoreable_attempts + report.unscorable_attempts ≡ report.scheduled_attempts
  pub outcomes :
      report.correct_count + report.wrong_count + report.refused_or_error_count
      ≡ report.scoreable_attempts
  pub level : report.scoreable_attempts ≡ 3 * report.scoreable_questions
  pub passed :
      report.pass_0_count + report.pass_1_count + report.pass_2_count + report.pass_3_count
      ≡ report.scoreable_questions
  pub reliable :
      report.pass_1_count + 2 * report.pass_2_count + 3 * report.pass_3_count ≡ report.correct_count
  pub flips : report.correctness_flip_count ≡ report.pass_1_count + report.pass_2_count

one_pass :
    (s : Bool) (n : ℕ)
    → n ≤ 3 * one_if s
    → (one_if (s && n == 0) + one_if (s && n == 1) + one_if (s && n == 2) + one_if (s && n == 3)
        ≡ one_if s)
      × (one_if (s && n == 1) + 2 * one_if (s && n == 2) + 3 * one_if (s && n == 3) ≡ n)
one_pass s n h = ground (arith, h)

pub keep-step :
    {A : Type 0} (test : A → Bool) (x : A) (xs : List A)
    → length (keep test (x ∷ xs)) ≡ one_if (test x) + length (keep test xs)
keep-step test x xs = ground arith

one_le : (b : Bool) → one_if b ≤ 1
one_le true = omega arith
one_le false = omega arith

module _ (mode : ScoringMode) where
  -- The three runs of a question, which are all scored with an outcome, or all not.
  pub record IsSettled (run : List SealedScoredAttempt) : Type 0 where
    pub three : length run ≡ 3
    pub level : scoreable mode run ≡ 3 * one_if (is_scoreable mode run)
    pub parted :
        amount mode is_correct run + amount mode is_wrong run + amount mode is_refused run
        ≡ scoreable mode run

  pass : ℕ → List SealedScoredAttempt → ℕ
  pass n run = one_if (is_scoreable mode run && amount mode is_correct run == n)

  passes-step :
      (n : ℕ) (run : List SealedScoredAttempt) (runs : List (List SealedScoredAttempt))
      → passes mode n (run ∷ runs) ≡ pass n run + passes mode n runs
  unfolding pass
  passes-step n run runs = ground arith

  record Sums (runs : List (List SealedScoredAttempt)) : Type 0 where
    scheduled : length (joined mode runs) ≡ 3 * length runs
    outcomes :
        amount mode is_correct (joined mode runs)
          + amount mode is_wrong (joined mode runs)
          + amount mode is_refused (joined mode runs)
        ≡ scoreable mode (joined mode runs)
    level : scoreable mode (joined mode runs) ≡ 3 * length (keep (is_scoreable mode) runs)
    passed :
        passes mode 0 runs + passes mode 1 runs + passes mode 2 runs + passes mode 3 runs
        ≡ length (keep (is_scoreable mode) runs)
    reliable :
        passes mode 1 runs + 2 * passes mode 2 runs + 3 * passes mode 3 runs
        ≡ amount mode is_correct (joined mode runs)
    fits : length (keep (is_scoreable mode) runs) ≤ length runs

  sums_lem : (runs : List (List SealedScoredAttempt)) → All IsSettled runs → Sums runs
  unfolding pass
  sums_lem [] h = record {
    scheduled = refl;
    outcomes = refl;
    level = refl;
    passed = refl;
    reliable = refl;
    fits = omega arith;
  }
  sums_lem (run ∷ runs) h =
      let later = sums_lem runs h.1 in
      let score = λ (test : Option Outcome → Bool).
        total-append (λ a. one_if (test (outcome_of (mode_score mode a)))) run (joined mode runs) in
      let scores =
        total-append (λ a. one_if (is_scored (mode_score mode a))) run (joined mode runs) in
      let one =
        one_pass (is_scoreable mode run) (amount mode is_correct run)
          (omega (arith, h.0.level, h.0.parted)) in
      let kept = keep-step (is_scoreable mode) run runs in
      let step = λ (n : ℕ). passes-step n run runs in
      record {
        scheduled = omega (arith, length-append run (joined mode runs), h.0.three, later.scheduled);
        outcomes = omega (
          arith,
          score is_correct,
          score is_wrong,
          score is_refused,
          scores,
          h.0.parted,
          later.outcomes,
        );
        level = omega (arith, scores, kept, h.0.level, later.level);
        passed = omega (arith, step 0, step 1, step 2, step 3, one.0, kept, later.passed);
        reliable = omega (arith, step 1, step 2, step 3, one.1, score is_correct, later.reliable);
        fits = omega (arith, kept, one_le (is_scoreable mode run), later.fits);
      }

  pub report_of-IsConsistent :
      (runs : List (List SealedScoredAttempt))
      → All IsSettled runs
      → IsConsistent (report_of mode runs) (length runs)
  unfolding report_of
  report_of-IsConsistent runs h =
      let sums = sums_lem runs h in
      record {
        scheduled = sums.scheduled;
        rest = omega (arith, sums.scheduled, sums.level, sums.fits);
        outcomes = sums.outcomes;
        level = sums.level;
        passed = sums.passed;
        reliable = sums.reliable;
        flips = refl;
      }
