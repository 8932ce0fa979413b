-- ===== src/Sealed/Phases.antt =====
-- src/omni_benchmark/sealed_scoring.py: the phases on one isolate.
use omni_benchmark.Prelude.{String, Bool, true, false, Option, none, some, List, [], ◌∷◌}
use omni_benchmark.Action.{Result, ok, raise, Action, pure, ◌>>=◌, try_except, try_finally}
use omni_benchmark.Postgres.{
  Kind, timeout, statement, ExecutionError, Driver, QuerySequenceResult, normalize_statements, Rows,
}
use omni_benchmark.Postgres.Run.{execute_query_sequence}
use omni_benchmark.Sealed.Calls.{or_else, State, connect_scoring, connect_trusted, close_connection}
use omni_benchmark.Sealed.{
  ScoringMode, official, sensitivity, FailureClass, candidate_timeout, candidate_execution_error,
  candidate_database_connect_failed, candidate_no_result, candidate_result_overflow,
  gold_database_connect_failed, gold_no_result, gold_result_overflow, preprocess_connect_failed,
  cleanup_connect_failed, Phase, preprocess, candidate, gold, cleanup, phase_failure,
  SealedScoringResult, system_failure, system_failure_at, infrastructure_failure, infrastructure_at,
  Uncaught, value_error, key_error, Provider, Phased, ran, ended,
}

module _ (d : Driver) (p : Provider d) where
  open d use {Connection, Cell}

  abbrev pub Act : Type 0 → Type 0
  Act A = Action (State d p) Uncaught A

  -- The `except PostgreSQLExecutionError` of `_execute_phase`.
  unfoldable pub phase_error : ScoringMode → Phase → Kind → Result Uncaught SealedScoringResult
  phase_error mode candidate timeout = ok (system_failure mode candidate_timeout)
  phase_error mode candidate statement = ok (system_failure mode candidate_execution_error)
  phase_error mode phase kind = elim (phase_failure phase kind) [
    | some failure ↦ ok (infrastructure_failure mode failure)
    | none ↦ raise key_error
  ]

  abbrev pub end_phase : Result Uncaught SealedScoringResult → Result Uncaught (Phased Cell)
  end_phase (ok r) = ok (ended r)
  end_phase (raise u) = raise u

  abbrev pub handled :
      ScoringMode
      → Phase
      → Result ExecutionError (QuerySequenceResult Cell)
      → Result Uncaught (Phased Cell)
  handled mode phase (ok r) = ok (ran r)
  handled mode phase (raise e) = end_phase (phase_error mode phase e.kind)

  -- `_execute_phase`: the `ValueError` of `_normalize_statements` is not caught.
  abbrev pub run_phase :
      ScoringMode → Connection → Phase → Bool → Option (List String) → Act (Phased Cell)
  run_phase mode conn phase read_only none s = (raise value_error, s)
  run_phase mode conn phase read_only (some statements) s =
      let (r, w) = execute_query_sequence d conn statements read_only s.world in
      (handled mode phase r, record s { world = w })

  unfoldable pub execute_phase :
      ScoringMode → Connection → List String → Phase → Bool → Act (Phased Cell)
  execute_phase mode conn statements phase read_only =
      run_phase mode conn phase read_only (normalize_statements statements)

  abbrev pub replaced : Option SealedScoringResult → Phased Cell → Phased Cell
  replaced (some failure) result = ended failure
  replaced none result = result

  -- What `_run_trusted_phase`, `_run_candidate` and `_run_gold` do with an open connection: run,
  -- close it in any case, and let a failed close replace the result.
  unfoldable pub on_connection :
      ScoringMode → d.Connection → Act (Phased d.Cell) → Act (Phased d.Cell)
  on_connection mode conn body = do
    ends ← try_finally body (close_connection d p mode conn)
    pure (replaced ends.1 ends.0)

  abbrev pub failure_of : Phased d.Cell → Option SealedScoringResult
  failure_of (ran r) = none
  failure_of (ended r) = some r

  unfoldable pub trusted_connect_failure : Phase → FailureClass
  trusted_connect_failure preprocess = preprocess_connect_failed
  trusted_connect_failure _ = cleanup_connect_failed

  -- `_run_trusted_phase`
  unfoldable pub run_trusted_phase :
      List String → ScoringMode → p.Isolate → Phase → Act (Option SealedScoringResult)
  run_trusted_phase [] mode isolate phase = pure none
  run_trusted_phase (sql ∷ rest) mode isolate phase =
      try_except (connect_trusted d p isolate)
        (λ conn. do
          result ← on_connection mode conn (execute_phase mode conn (sql ∷ rest) phase false)
          pure (failure_of result))
        (λ _. pure (some (infrastructure_failure mode (trusted_connect_failure phase))))

  -- `_run_cleanup_pair`
  unfoldable pub run_cleanup_pair :
      List String → ScoringMode → p.Isolate → p.Isolate → Act (Option SealedScoringResult)
  run_cleanup_pair cleanup_sql mode candidate_isolate gold_isolate = do
    first ← run_trusted_phase cleanup_sql mode candidate_isolate cleanup
    second ← run_trusted_phase cleanup_sql mode gold_isolate cleanup
    pure (or_else first second)

  -- The end of `_run_candidate`, from the rows and the overflow flag of the result.
  unfoldable pub candidate_end :
      ScoringMode → QuerySequenceResult Cell → Option (Rows Cell) → Bool → Phased Cell
  candidate_end mode r none over = ended (system_failure mode candidate_no_result)
  candidate_end sensitivity r (some rows) true =
      ended (system_failure_at sensitivity candidate_result_overflow true)
  candidate_end mode r (some rows) over = ran r

  unfoldable pub settle_candidate : ScoringMode → Phased Cell → Phased Cell
  unfolding candidate_end
  settle_candidate mode (ended r) = ended r
  settle_candidate mode (ran r) = candidate_end mode r r.rows r.row_limit_exceeded

  -- The end of `_run_gold`.
  unfoldable pub gold_end :
      ScoringMode → QuerySequenceResult Cell → Option (Rows Cell) → Bool → Phased Cell
  gold_end mode r none over = ended (infrastructure_failure mode gold_no_result)
  gold_end sensitivity r (some rows) true =
      ended (infrastructure_at sensitivity gold_result_overflow true)
  gold_end mode r (some rows) over = ran r

  unfoldable pub settle_gold : ScoringMode → Phased Cell → Phased Cell
  unfolding gold_end
  settle_gold mode (ended r) = ended r
  settle_gold mode (ran r) = gold_end mode r r.rows r.row_limit_exceeded

  -- The second statement of `_execute_candidate` under the official policy: what the detection run
  -- of the authored SQL ended with stands, and its rows are dropped.
  unfoldable pub after_detection : Phased Cell → Act (Phased Cell) → Act (Phased Cell)
  after_detection (ended r) rest = pure (ended r)
  after_detection (ran r) rest = rest

  -- `_execute_candidate`, from the authored SQL and the SQL of `_scoring_sql`.
  unfoldable pub execute_candidate :
      ScoringMode → Connection → List String → List String → Act (Phased Cell)
  execute_candidate sensitivity conn authored scoring =
      execute_phase sensitivity conn scoring candidate true
  execute_candidate official conn authored scoring = do
    detection ← execute_phase official conn authored candidate true
    after_detection detection (execute_phase official conn scoring candidate true)

  -- `_run_candidate`
  unfoldable pub run_candidate :
      List String → List String → ScoringMode → p.Isolate → Act (Phased Cell)
  run_candidate authored scoring mode isolate =
      try_except (connect_scoring d p isolate)
        (λ conn. do
          result ← on_connection mode conn (execute_candidate mode conn authored scoring)
          pure (settle_candidate mode result))
        (λ _. pure (ended (infrastructure_failure mode candidate_database_connect_failed)))

  -- `_run_gold`
  unfoldable pub run_gold : List String → ScoringMode → p.Isolate → Act (Phased Cell)
  run_gold scoring mode isolate =
      try_except (connect_scoring d p isolate)
        (λ conn. do
          result ← on_connection mode conn (execute_phase mode conn scoring gold true)
          pure (settle_gold mode result))
        (λ _. pure (ended (infrastructure_failure mode gold_database_connect_failed)))
