-- ===== src/Sealed/Query.antt =====
-- src/omni_benchmark/sealed_scoring.py: `score_query`, `score_query_both` and
-- `score_precomputed_result`.
pub mod Leases
pub mod Isolates
pub mod Labels
pub mod Taxonomy
pub mod Verdicts
pub mod Sessions
pub mod Records
use omni_benchmark.Postgres.{Exception, max_result_rows, Rows, Driver, QuerySequenceResult}
use omni_benchmark.Prelude.{
  true, none, ◌&&◌, ◌+◌, length, ltb, take, false, is_empty, not, some, Option, Bool, ◌||◌, [], any,
  if◌then◌else◌,
}
use omni_benchmark.Sealed.{
  candidate_result_overflow, system_failure_at, database_acquire_failed, gold_query_missing,
  infrastructure_failure, candidate_disallowed_statement, no_query, system_no_answer, preprocess,
  sensitivity, official, ScoringMode, SealedScoringResult, CompareError, policy_error, other_error,
  Uncaught, value_error, compare_error, Scorers, Provider, Phased, ran, ended,
}
use omni_benchmark.Action.{
  throw, try_except, try_finally, ◌>>◌, Result, ok, raise, pure, lift, ◌>>=◌,
}
use omni_benchmark.Sealed.Calls.{or_else, result_or, acquire, reset_and_release, finalize_pair}
use omni_benchmark.Sealed.Phases.{run_cleanup_pair, run_trusted_phase, Act, run_candidate, run_gold}
use text.Mathlib.Text.{◌==◌ as str_eq}
use omni_benchmark.Prelude.Text.{is_blank}
use omni_benchmark.Sealed.Compare.{Case, candidate_scoring_sql, gold_scoring_sql, compare_results}

module _ (d : Driver) (p : Provider d) (sc : Scorers d.Cell) where
  abbrev pub M : Type 0 → Type 0
  M A = Act d p A

  -- `sensitivity_equal((), (), conditions=…)` in `_validate_case`, which raises for bad conditions.
  conditions_error : Result CompareError Bool → Result Uncaught Unit
  conditions_error (ok equal) = ok tt
  conditions_error (raise policy_error) = raise value_error
  conditions_error (raise other_error) = raise compare_error

  abbrev pub then_check : Result Uncaught Unit → Result Uncaught Unit → Result Uncaught Unit
  then_check (ok _) rest = rest
  then_check (raise e) rest = raise e

  -- `_validate_case`: the fields of the case are typed here, so the tests of their classes fall away.
  unfoldable pub validate_case : Case d sc → Result Uncaught Unit
  unfolding conditions_error
  validate_case c =
      if str_eq c.database ""
      then raise value_error
      else then_check (conditions_error (sc.sensitivity_equal [] [] c.conditions)) (
          if any is_blank c.candidate_sql
            || any is_blank c.gold_sql
            || any is_blank c.preprocess_sql
            || any is_blank c.cleanup_sql
          then raise value_error
          else ok tt)

  unfoldable pub after_gold :
      Case d sc → ScoringMode → QuerySequenceResult d.Cell → Phased d.Cell → M SealedScoringResult
  after_gold c mode r (ended failure) = pure failure
  after_gold c mode r (ran g) = lift (compare_results d sc mode r g c.conditions)

  after_candidate : Case d sc → ScoringMode → p.Isolate → Phased d.Cell → M SealedScoringResult
  unfolding after_gold
  after_candidate c mode gold_isolate (ended failure) = pure failure
  after_candidate c mode gold_isolate (ran r) =
      run_gold d p (gold_scoring_sql d sc c mode) mode gold_isolate >>= after_gold c mode r

  evaluate_prepared : Case d sc → ScoringMode → p.Isolate → p.Isolate → M SealedScoringResult
  unfolding after_candidate
  evaluate_prepared c mode candidate_isolate gold_isolate =
      run_candidate d p c.candidate_sql (candidate_scoring_sql d sc c mode) mode candidate_isolate
      >>= after_candidate c mode gold_isolate

  abbrev unless_failed : Option SealedScoringResult → M SealedScoringResult → M SealedScoringResult
  unless_failed (some failure) rest = pure failure
  unless_failed none rest = rest

  -- `_evaluate_with_isolates`
  unfoldable pub evaluate_with_isolates :
      Case d sc → ScoringMode → p.Isolate → p.Isolate → M SealedScoringResult
  unfolding evaluate_prepared
  evaluate_with_isolates c mode candidate_isolate gold_isolate = do
    first ← run_trusted_phase d p c.preprocess_sql mode candidate_isolate preprocess
    unless_failed first (
        run_trusted_phase d p c.preprocess_sql mode gold_isolate preprocess >>= λ second.
        unless_failed second (evaluate_prepared c mode candidate_isolate gold_isolate))

  -- The two nested `try … finally` of `score_query`: evaluate, clean both isolates up, and give both
  -- back; a failure to give back comes before a failure of the cleanup and before the result.
  unfoldable pub score_on_isolates :
      Case d sc → ScoringMode → p.Isolate → p.Isolate → M SealedScoringResult
  score_on_isolates c mode candidate_isolate gold_isolate = do
    ends ←
        try_finally
          (try_finally (evaluate_with_isolates c mode candidate_isolate gold_isolate)
            (run_cleanup_pair d p c.cleanup_sql mode candidate_isolate gold_isolate))
          (finalize_pair d p mode candidate_isolate gold_isolate)
    pure (result_or (or_else ends.1 ends.0.1) ends.0.0)

  -- If the second isolate cannot be acquired the first is given back.
  give_up : ScoringMode → p.Isolate → Exception → M SealedScoringResult
  give_up mode candidate_isolate e = do
    failure ← reset_and_release d p mode candidate_isolate
    pure (result_or failure (infrastructure_failure mode database_acquire_failed))

  acquire_gold : Case d sc → ScoringMode → p.Isolate → M SealedScoringResult
  unfolding give_up
  acquire_gold c mode candidate_isolate =
      try_except (acquire d p c.database) (score_on_isolates c mode candidate_isolate)
        (give_up mode candidate_isolate)

  -- The part of `score_query` that comes after its tests of the case.
  unfoldable pub score_admitted : Case d sc → ScoringMode → M SealedScoringResult
  unfolding acquire_gold
  score_admitted c mode =
      try_except (acquire d p c.database) (acquire_gold c mode)
        (λ _. pure (infrastructure_failure mode database_acquire_failed))

  unfoldable pub score_query : Case d sc → ScoringMode → M SealedScoringResult
  score_query c mode = do
    lift (validate_case c)
    if is_empty c.candidate_sql
        then pure (system_no_answer mode no_query)
        else if not (sc.is_admissible c.candidate_sql)
        then pure (system_no_answer mode candidate_disallowed_statement)
        else if is_empty c.gold_sql
        then pure (infrastructure_failure mode gold_query_missing)
        else score_admitted c mode

  unfoldable pub score_query_both : Case d sc → M (SealedScoringResult × SealedScoringResult)
  score_query_both c = do
    first ← score_query c official
    second ← score_query c sensitivity
    pure (first, second)

  -- The result that stands for rows which were computed before; one row more than the limit is kept.
  precomputed : Rows d.Cell → QuerySequenceResult d.Cell
  precomputed rows = record {
    rows = some (take (max_result_rows + 1) rows);
    statement_count = 0;
    row_limit_exceeded = ltb max_result_rows (length rows);
  }

  score_against_gold : Case d sc → Rows d.Cell → ScoringMode → p.Isolate → M SealedScoringResult
  unfolding after_gold precomputed
  score_against_gold c rows mode gold_isolate = do
    ends ←
        try_finally
          (run_gold d p (gold_scoring_sql d sc c mode) mode gold_isolate
            >>= after_gold c mode (precomputed rows))
          (reset_and_release d p mode gold_isolate)
    pure (result_or ends.1 ends.0)

  abbrev overflows : ScoringMode → Rows d.Cell → Bool
  overflows official rows = false
  overflows sensitivity rows = ltb max_result_rows (length rows)

  unfoldable pub score_precomputed_result :
      Case d sc → Rows d.Cell → ScoringMode → M SealedScoringResult
  unfolding score_against_gold
  score_precomputed_result c rows mode = do
    lift (validate_case c)
    if not (is_empty c.candidate_sql && is_empty c.preprocess_sql && is_empty c.cleanup_sql)
        then throw value_error
        else if overflows mode rows
        then pure (system_failure_at mode candidate_result_overflow true)
        else if is_empty c.gold_sql
        then pure (infrastructure_failure mode gold_query_missing)
        else try_except (acquire d p c.database) (score_against_gold c rows mode)
            (λ _. pure (infrastructure_failure mode database_acquire_failed))
