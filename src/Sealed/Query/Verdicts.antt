-- ===== src/Sealed/Query/Verdicts.antt =====
-- sealed_scoring.py: what `score_query` returns and what escapes from it.
use omni_benchmark.Sealed.{
  infrastructure_failure, Uncaught, other_error, policy_error, ended, ran, no_query,
  candidate_disallowed_statement, gold_query_missing, system_no_answer, Phased, CompareError,
  SealedScoringResult, Scorers, Provider, ScoringMode,
}
use omni_benchmark.Sealed.Query.{
  then_check, conditions_error, unless_failed, after_candidate, evaluate_prepared,
  evaluate_with_isolates, score_on_isolates, give_up, score_admitted, score_query, validate_case,
  after_gold,
}
use omni_benchmark.Prelude.{
  not, refl, ◌||◌, any, [], is_empty, Option, some, none, true, false, Bool,
}
use omni_benchmark.Action.Yields.{
  Holds-if, Yields-if, Yields-pure, Anything, Yields-any, Yields-finally, Yields-lift, Holds,
  Yields-bind, Yields-try, Yields,
}
use omni_benchmark.Sealed.Compare.{compare_results, Case, compare_rows, compared}
use omni_benchmark.Sealed.Query.Labels.{
  system_no_answer-IsLabelled, infrastructure_failure-IsLabelled, or_else-IsFine,
  result_or-IsLabelled, EndsLabelled, finalize_pair-Yields, judged, system_failure-IsLabelled,
  IsExpected, IsFine, reset_and_release-Yields, IsLabelled,
}
use text.Mathlib.Text.{◌==◌ as str_eq}
use omni_benchmark.Prelude.Text.{is_blank}
use omni_benchmark.Postgres.{Rows, Exception, QuerySequenceResult, Driver}
use omni_benchmark.Sealed.Query.Taxonomy.{
  run_candidate-Yields, run_trusted_phase-Yields, run_gold-Yields,
}
use omni_benchmark.Sealed.Phases.{run_cleanup_pair, Act}
use omni_benchmark.Sealed.Calls.{acquire, or_else}
use omni_benchmark.Action.{Result, ok, raise, pure}

module _ (d : Driver) (p : Provider d) (sc : Scorers d.Cell) (mode : ScoringMode) where
  abbrev Labelled : Act d p SealedScoringResult → Type 0
  Labelled m = Yields (IsLabelled mode) (IsExpected mode) m

  compared-Holds :
      (r : Result CompareError Bool) (co go : Bool)
      → Holds (IsLabelled mode) (IsExpected mode) (compared d sc mode r co go)
  unfolding compared
  compared-Holds (ok true) co go = record { scored_by = refl; label = judged _ (λ e. cc) }
  compared-Holds (ok false) co go = record { scored_by = refl; label = judged _ (λ e. cc) }
  compared-Holds (raise policy_error) co go = infrastructure_failure-IsLabelled mode _ refl
  compared-Holds (raise other_error) co go = λ e. cc

  compare_rows-Holds :
      (a b : Option (Rows d.Cell)) (co go : Bool) (c : sc.Conditions)
      → Holds (IsLabelled mode) (IsExpected mode) (compare_rows d sc mode a b co go c)
  unfolding compare_rows
  compare_rows-Holds none b co go c = system_failure-IsLabelled mode _ refl
  compare_rows-Holds (some rows) none co go c = infrastructure_failure-IsLabelled mode _ refl
  compare_rows-Holds (some rows) (some gold_rows) co go c = compared-Holds _ co go

  after_gold-Labelled :
      (c : Case d sc) (r : QuerySequenceResult d.Cell) (g : Phased d.Cell)
      → EndsLabelled mode g
      → Labelled (after_gold d p sc c mode r g)
  unfolding after_gold
  after_gold-Labelled c r (ended failure) h = Yields-pure _ h
  after_gold-Labelled c r (ran g) h =
      Yields-lift _ (unfold compare_results in compare_rows-Holds _ _ _ _ _)

  module _ (c : Case d sc) (a b : p.Isolate) where
    after_candidate-Labelled :
        (r : Phased d.Cell) → EndsLabelled mode r → Labelled (after_candidate d p sc c mode b r)
    unfolding after_candidate
    after_candidate-Labelled (ended failure) h = Yields-pure _ h
    after_candidate-Labelled (ran r) h =
        Yields-bind _ _ (run_gold-Yields mode d p _ b) (λ g k. after_gold-Labelled c r g k)

    unless_failed-Labelled :
        (failure : Option SealedScoringResult) (rest : Act d p SealedScoringResult)
        → IsFine mode failure
        → Labelled rest
        → Labelled (unless_failed d p sc failure rest)
    unless_failed-Labelled (some failure) rest h k = Yields-pure _ h
    unless_failed-Labelled none rest h k = k

    evaluate_prepared-Labelled : Labelled (evaluate_prepared d p sc c mode a b)
    unfolding evaluate_prepared
    evaluate_prepared-Labelled =
        Yields-bind _ _ (run_candidate-Yields d p mode _ _ a) after_candidate-Labelled

    evaluate-Labelled : Labelled (evaluate_with_isolates d p sc c mode a b)
    unfolding evaluate_with_isolates
    evaluate-Labelled = Yields-bind _ _ (run_trusted_phase-Yields mode d p _ a _) (λ first h.
        unless_failed-Labelled first _ h (
          Yields-bind _ _ (run_trusted_phase-Yields mode d p _ b _)
            (λ second k. unless_failed-Labelled second _ k evaluate_prepared-Labelled)))

    cleanup-Yields :
        Yields (IsFine mode) (IsExpected mode) (run_cleanup_pair d p c.cleanup_sql mode a b)
    unfolding run_cleanup_pair
    cleanup-Yields = Yields-bind _ _ (run_trusted_phase-Yields mode d p _ a _) (λ first h.
        Yields-bind _ _ (run_trusted_phase-Yields mode d p _ b _)
          (λ second k. Yields-pure _ (or_else-IsFine mode first second h k)))

    score_on_isolates-Labelled : Labelled (score_on_isolates d p sc c mode a b)
    unfolding score_on_isolates
    score_on_isolates-Labelled =
        Yields-bind _ _
          (Yields-finally _ _ (Yields-finally _ _ evaluate-Labelled cleanup-Yields)
            (finalize_pair-Yields mode d p a b))
          (λ ends h. Yields-pure _ (
            result_or-IsLabelled mode (or_else ends.1 ends.0.1) ends.0.0
              (or_else-IsFine mode ends.1 ends.0.1 h.1 h.0.1) h.0.0))

  give_up-Labelled : (a : p.Isolate) (e : Exception) → Labelled (give_up d p sc mode a e)
  unfolding give_up
  give_up-Labelled a e = Yields-bind _ _ (reset_and_release-Yields mode d p a) (λ failure h.
      Yields-pure _
        (result_or-IsLabelled mode failure _ h (infrastructure_failure-IsLabelled mode _ refl)))

  score_admitted-Labelled : (c : Case d sc) → Labelled (score_admitted d p sc c mode)
  unfolding score_admitted
  score_admitted-Labelled c =
      Yields-try _ _ _ (Yields-any (acquire d p c.database))
        (λ a _.
          Yields-try _ _ _ (Yields-any (acquire d p c.database))
            (λ b _. score_on_isolates-Labelled c a b) (λ e _. give_up-Labelled a e))
        (λ _ _. Yields-pure _ (infrastructure_failure-IsLabelled mode _ refl))

  conditions-Holds :
      (r : Result CompareError Bool) (rest : Result Uncaught (Unit {0}))
      → Holds Anything (IsExpected mode) rest
      → Holds Anything (IsExpected mode) (then_check d p sc (conditions_error d p sc r) rest)
  unfolding conditions_error
  conditions-Holds (ok equal) rest h = h
  conditions-Holds (raise policy_error) rest h = λ e. cc
  conditions-Holds (raise other_error) rest h = λ e. cc

  validate_case-Holds : (c : Case d sc) → Holds Anything (IsExpected mode) (validate_case d p sc c)
  unfolding validate_case
  validate_case-Holds c =
      Holds-if Anything (IsExpected mode) (str_eq c.database "") _ _ (λ e. cc)
        (conditions-Holds (sc.sensitivity_equal [] [] c.conditions) _ (
          Holds-if Anything (IsExpected mode)
            (any is_blank c.candidate_sql
              || any is_blank c.gold_sql
              || any is_blank c.preprocess_sql
              || any is_blank c.cleanup_sql)
            _ _ (λ e. cc) tt))

  -- A scoring returns a verdict of the comparator, a failure that the evaluated system owns, or a
  -- failure of the infrastructure with no label, and its fields agree on which; of the exceptions
  -- that escape none is the `KeyError` of `_phase_failure`.
  pub score_query-IsLabelled : (c : Case d sc) → Labelled (score_query d p sc c mode)
  unfolding score_query
  score_query-IsLabelled c =
      Yields-bind _ _ (Yields-lift (validate_case d p sc c) (validate_case-Holds c)) (λ _ _.
        Yields-if (is_empty c.candidate_sql) (pure (system_no_answer mode no_query)) _
          (Yields-pure _ (system_no_answer-IsLabelled mode _ refl))
          (Yields-if (not (sc.is_admissible c.candidate_sql))
            (pure (system_no_answer mode candidate_disallowed_statement)) _
            (Yields-pure _ (system_no_answer-IsLabelled mode _ refl))
            (Yields-if (is_empty c.gold_sql) (pure (infrastructure_failure mode gold_query_missing))
              _ (Yields-pure _ (infrastructure_failure-IsLabelled mode _ refl))
              (score_admitted-Labelled c))))
