-- ===== src/Sealed/Query/Labels.antt =====
-- sealed_scoring.py: what the results of a scoring say, and what escapes from it.
use omni_benchmark.Postgres.{
  infrastructure, statement, timeout, Kind, normalize_statements, QuerySequenceResult,
  ExecutionError, Driver, Exception,
}
use omni_benchmark.Sealed.{
  cleanup, gold, candidate, preprocess, phase_failure, Phase, FailureOrigin, system_no_answer,
  ScoringMode, SealedScoringResult, Provider, Phased, ran, ended, refused_or_error,
  evaluated_system, benchmark_infrastructure, FailureClass, no_query, candidate_timeout,
  candidate_execution_error, candidate_no_result, candidate_disallowed_statement,
  candidate_result_overflow, is_rerun_eligible, scorer, key_error, Uncaught, Outcome,
  system_failure_at, system_failure, infrastructure_at, infrastructure_failure,
}
use omni_benchmark.Action.{Action, Result, ok, raise}
use omni_benchmark.Sealed.Phases.{
  end_phase, handled, run_phase, Act, execute_phase, on_connection, phase_error, replaced,
}
use omni_benchmark.Action.Yields.{
  Yields-finally, Holds, Yields, Yields-any, Yields-pure, Yields-bind, Yields-try,
}
use omni_benchmark.Sealed.Calls.{
  State, close_connection, failing, finalize_pair, or_else, reset_and_release, result_or,
}
use omni_benchmark.Prelude.{◌≡◌, ◌≢◌, refl, Bool, true, false, Option, none, some, List, String}

-- The failures that the evaluated system owns.
abbrev pub is_owned : FailureClass → Bool
is_owned no_query = true
is_owned candidate_timeout = true
is_owned candidate_execution_error = true
is_owned candidate_disallowed_statement = true
is_owned candidate_no_result = true
is_owned candidate_result_overflow = true
is_owned _ = false

-- What the label, the origin, the class and the rerun flag may be together.
pub data Label : Option Outcome → Option FailureOrigin → Option FailureClass → Bool → Type 0 where
  judged : (o : Outcome) → o ≢ refused_or_error → Label (some o) none none false
  owned :
      (f : FailureClass)
      → is_owned f ≡ true
      → Label (some refused_or_error) (some evaluated_system) (some f) false
  blameless :
      (f : FailureClass) (rerun : Bool)
      → is_owned f ≡ false
      → rerun ≡ is_rerun_eligible f
      → Label none (some benchmark_infrastructure) (some f) rerun

pub record IsLabelled (mode : ScoringMode) (r : SealedScoringResult) : Type 0 where
  pub scored_by : (r.scorer_identity, r.scorer_version) ≡ scorer mode
  pub label : Label r.outcome r.failure_origin r.failure_class r.rerun_eligible

module _ (mode : ScoringMode) where
  pub system_failure_at-IsLabelled :
      (f : FailureClass) (over : Bool)
      → is_owned f ≡ true
      → IsLabelled mode (system_failure_at mode f over)
  unfolding system_failure_at
  system_failure_at-IsLabelled f over h = record { scored_by = refl; label = owned f h }

  pub system_failure-IsLabelled :
      (f : FailureClass) → is_owned f ≡ true → IsLabelled mode (system_failure mode f)
  unfolding system_failure
  system_failure-IsLabelled f h = system_failure_at-IsLabelled f false h

  pub system_no_answer-IsLabelled :
      (f : FailureClass) → is_owned f ≡ true → IsLabelled mode (system_no_answer mode f)
  unfolding system_no_answer
  system_no_answer-IsLabelled f h = record { scored_by = refl; label = owned f h }

  pub infrastructure_at-IsLabelled :
      (f : FailureClass) (over : Bool)
      → is_owned f ≡ false
      → IsLabelled mode (infrastructure_at mode f over)
  unfolding infrastructure_at
  infrastructure_at-IsLabelled f over h = record { scored_by = refl; label = blameless f _ h refl }

  pub infrastructure_failure-IsLabelled :
      (f : FailureClass) → is_owned f ≡ false → IsLabelled mode (infrastructure_failure mode f)
  unfolding infrastructure_failure
  infrastructure_failure-IsLabelled f h = infrastructure_at-IsLabelled f false h

  abbrev pub IsFine : Option SealedScoringResult → Type 0
  IsFine none = Unit
  IsFine (some r) = IsLabelled mode r

  abbrev pub EndsLabelled : {Cell : Type 0} → Phased Cell → Type 0
  EndsLabelled (ran r) = Unit
  EndsLabelled (ended r) = IsLabelled mode r

  -- The `KeyError` of `_phase_failure` does not escape.
  abbrev pub IsExpected : Uncaught → Type 0
  IsExpected e = e ≢ key_error

  pub or_else-IsFine :
      (a b : Option SealedScoringResult) → IsFine a → IsFine b → IsFine (or_else a b)
  or_else-IsFine none b ha hb = hb
  or_else-IsFine (some a) b ha hb = ha

  pub result_or-IsLabelled :
      (a : Option SealedScoringResult) (b : SealedScoringResult)
      → IsFine a
      → IsLabelled mode b
      → IsLabelled mode (result_or a b)
  result_or-IsLabelled none b ha hb = hb
  result_or-IsLabelled (some a) b ha hb = ha

  replaced-EndsLabelled :
      (d : Driver) (p : Provider d) (failure : Option SealedScoringResult) (result : Phased d.Cell)
      → EndsLabelled result × IsFine failure
      → EndsLabelled (replaced d p failure result)
  replaced-EndsLabelled d p none result h = h.0
  replaced-EndsLabelled d p (some failure) result h = h.1

  module _ (d : Driver) (p : Provider d) where
    failing-Yields :
        (f : FailureClass) (m : Action (State d p) Exception Unit)
        → is_owned f ≡ false
        → Yields IsFine IsExpected (failing d p mode f m)
    unfolding failing
    failing-Yields f m h =
        Yields-try m _ _ (Yields-any m) (λ _ _. Yields-pure none tt)
          (λ _ _. Yields-pure _ (infrastructure_failure-IsLabelled f h))

    close_connection-Yields :
        (conn : d.Connection) → Yields IsFine IsExpected (close_connection d p mode conn)
    unfolding close_connection
    close_connection-Yields conn = failing-Yields _ _ refl

    pub reset_and_release-Yields :
        (i : p.Isolate) → Yields IsFine IsExpected (reset_and_release d p mode i)
    unfolding reset_and_release
    reset_and_release-Yields i = Yields-bind _ _ (failing-Yields _ _ refl) (λ a ha.
        Yields-bind _ _ (failing-Yields _ _ refl)
          (λ b hb. Yields-pure _ (or_else-IsFine b a hb ha)))

    pub finalize_pair-Yields :
        (i j : p.Isolate) → Yields IsFine IsExpected (finalize_pair d p mode i j)
    unfolding finalize_pair
    finalize_pair-Yields i j = Yields-bind _ _ (reset_and_release-Yields i) (λ a ha.
        Yields-bind _ _ (reset_and_release-Yields j)
          (λ b hb. Yields-pure _ (or_else-IsFine a b ha hb)))

    phase_error-Holds :
        (phase : Phase) (kind : Kind)
        → Holds (IsLabelled mode) IsExpected (phase_error d p mode phase kind)
    unfolding phase_error phase_failure
    phase_error-Holds preprocess timeout = infrastructure_failure-IsLabelled _ refl
    phase_error-Holds preprocess statement = infrastructure_failure-IsLabelled _ refl
    phase_error-Holds preprocess infrastructure = infrastructure_failure-IsLabelled _ refl
    phase_error-Holds candidate timeout = system_failure-IsLabelled _ refl
    phase_error-Holds candidate statement = system_failure-IsLabelled _ refl
    phase_error-Holds candidate infrastructure = infrastructure_failure-IsLabelled _ refl
    phase_error-Holds gold timeout = infrastructure_failure-IsLabelled _ refl
    phase_error-Holds gold statement = infrastructure_failure-IsLabelled _ refl
    phase_error-Holds gold infrastructure = infrastructure_failure-IsLabelled _ refl
    phase_error-Holds cleanup timeout = infrastructure_failure-IsLabelled _ refl
    phase_error-Holds cleanup statement = infrastructure_failure-IsLabelled _ refl
    phase_error-Holds cleanup infrastructure = infrastructure_failure-IsLabelled _ refl

    handled-Holds :
        (phase : Phase) (r : Result ExecutionError (QuerySequenceResult d.Cell))
        → Holds EndsLabelled IsExpected (handled d p mode phase r)
    handled-Holds phase (ok r) = tt
    handled-Holds phase (raise e) =
        raised (phase_error d p mode phase e.kind) (phase_error-Holds phase e.kind)
      where
        raised :
            (r : Result Uncaught SealedScoringResult)
            → Holds (IsLabelled mode) IsExpected r
            → Holds EndsLabelled IsExpected (end_phase d p r)
        raised (ok r) h = h
        raised (raise u) h = h

    pub execute_phase-Yields :
        (conn : d.Connection) (statements : List String) (phase : Phase) (read_only : Bool)
        → Yields EndsLabelled IsExpected (execute_phase d p mode conn statements phase read_only)
    unfolding execute_phase
    execute_phase-Yields conn statements phase read_only = record {
      at = λ s. run s (normalize_statements statements);
    }
      where
        run :
            (s : State d p) (o : Option (List String))
            → Holds EndsLabelled IsExpected (run_phase d p mode conn phase read_only o s).0
        run s none = λ e. cc
        run s (some l) = handled-Holds phase _

    pub on_connection-Yields :
        (conn : d.Connection) (body : Act d p (Phased d.Cell))
        → Yields EndsLabelled IsExpected body
        → Yields EndsLabelled IsExpected (on_connection d p mode conn body)
    unfolding on_connection
    on_connection-Yields conn body h =
        Yields-bind _ _ (Yields-finally _ _ h (close_connection-Yields conn))
          (λ ends k. Yields-pure _ (replaced-EndsLabelled d p ends.1 ends.0 k))
