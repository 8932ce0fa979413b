-- ===== src/Postgres/Run.antt =====
-- src/omni_benchmark/postgres_execution.py: the functions that call the driver.
pub mod Limits
pub mod Drain
use omni_benchmark.Prelude.{
  ℕ, suc, zero, ◌+◌, String, Bool, false, Option, none, some, List, [], ◌∷◌, ltb, if◌then◌else◌,
  take, length,
}
use omni_benchmark.Action.{
  Result, ok, raise, Action, pure, throw, lift, held, ◌>>=◌, ◌>>◌, try_except,
}
use omni_benchmark.Postgres.{
  max_result_rows, max_statement_timeout_ms, query_canceled_sqlstate, default_timeout_sql, timeout,
  ExecutionError, Exception, execution_error, Cancellation, not_fired, cancelled, cancel_failed,
  Driver, Rows, QuerySequenceResult, infrastructure_error, to_execution_error,
}

module _ (d : Driver) where
  open d use {
    World, Connection, Cursor, Cell, cursor, execute, execute_timed, commit, rollback, nextset,
    has_description, fetchmany, close_cursor, sets_left,
  }

  -- The end of `_execute_with_client_timeout`, once the timer thread is joined.
  after_timer : ℕ → Result Exception Unit → Cancellation → Result Exception Unit
  unfolding infrastructure_error
  after_timer i r cancel_failed = raise (execution_error (infrastructure_error i))
  after_timer i (raise e) c = raise e
  after_timer i (ok a) cancelled = raise (
      execution_error
        (record { kind = timeout; sqlstate = some query_canceled_sqlstate; statement_index = i }))
  after_timer i (ok a) not_fired = ok tt

  execute_with_client_timeout : Connection → Cursor → String → ℕ → ℕ → Action World Exception Unit
  unfolding after_timer
  execute_with_client_timeout conn cur sql i timeout_ms w =
      let (answer, w') = execute_timed conn cur sql timeout_ms w in
      (after_timer i answer.0 answer.1, w')

  -- `while cursor.nextset(): pass`, on fuel.
  pub drain : ℕ → Cursor → Action World Exception Unit
  drain zero cur = pure tt
  drain (suc fuel) cur = do
    more ← nextset cur
    let rest = drain fuel cur
    if more then rest else pure tt

  pub drain_all : Cursor → Action World Exception Unit
  unfolding drain
  drain_all cur w = drain (suc (sets_left cur w)) cur w

  abbrev Fetched : Type 0
  Fetched = Option (Rows Cell) × Bool

  fetch : Cursor → Action World Exception Fetched
  fetch cur = do
    described ← has_description cur
    if described
        then (do
          rows ← fetchmany cur (max_result_rows + 1)
          pure (some (take max_result_rows rows), ltb max_result_rows (length rows)))
        else pure (none, false)

  -- The `try` body of `_execute_statement`.
  statement_body :
      Connection → Cursor → String → ℕ → String → ℕ → Bool → Action World Exception Fetched
  unfolding execute_with_client_timeout drain_all fetch
  statement_body conn cur sql i timeout_text timeout_ms read_only = do
    execute cur timeout_text
    if read_only then execute cur "SET TRANSACTION READ ONLY;" else pure tt
    execute_with_client_timeout conn cur sql i timeout_ms
    commit conn
    drain_all cur
    fetch cur

  -- The `except Exception as error` of `_execute_statement`: it leaves a pending error, raised here
  -- and caught by `execute_statement` until the cursor is closed.
  recover : Connection → ℕ → Exception → Action World ExecutionError Fetched
  unfolding to_execution_error infrastructure_error
  recover conn i error =
      try_except (rollback conn) (λ _. throw (to_execution_error error i))
        (λ _. throw (infrastructure_error i))

  -- The outcome of the body, as `operation_error` and `result` hold it while the cursor is closed.
  guarded :
      Connection
      → Cursor
      → String
      → ℕ
      → String
      → ℕ
      → Bool
      → Action World ExecutionError (Result ExecutionError Fetched)
  unfolding statement_body recover
  guarded conn cur sql i timeout_text timeout_ms read_only = held (
      try_except (statement_body conn cur sql i timeout_text timeout_ms read_only) pure
        (recover conn i))

  with_cursor :
      Connection → Cursor → String → ℕ → String → ℕ → Bool → Action World ExecutionError Fetched
  unfolding guarded infrastructure_error
  with_cursor conn cur sql i timeout_text timeout_ms read_only = do
    outcome ← guarded conn cur sql i timeout_text timeout_ms read_only
    try_except (close_cursor cur) (λ _. lift outcome) (λ _. throw (infrastructure_error i))

  unfoldable pub execute_statement :
      Connection → String → ℕ → String → ℕ → Bool → Action World ExecutionError Fetched
  unfolding with_cursor infrastructure_error
  execute_statement conn sql i timeout_text timeout_ms read_only =
      try_except (cursor conn) (λ cur. with_cursor conn cur sql i timeout_text timeout_ms read_only)
        (λ _. throw (infrastructure_error i))

  -- The loop of `execute_query_sequence` from statement `i`; `last` is the result so far.
  run_statements :
      Connection
      → List String
      → ℕ
      → String
      → ℕ
      → Bool
      → Fetched
      → Action World ExecutionError Fetched
  run_statements conn [] i timeout_text timeout_ms read_only last = pure last
  run_statements conn (sql ∷ rest) i timeout_text timeout_ms read_only last =
      execute_statement conn sql i timeout_text timeout_ms read_only
      >>= run_statements conn rest (i + 1) timeout_text timeout_ms read_only

  -- `execute_query_sequence` at its default timeout, for statements that `_normalize_statements`
  -- accepts.
  unfoldable pub execute_query_sequence :
      Connection → List String → Bool → Action World ExecutionError (QuerySequenceResult Cell)
  unfolding run_statements
  execute_query_sequence conn statements read_only = do
    last ←
        run_statements conn statements 0 default_timeout_sql max_statement_timeout_ms read_only
          (none, false)
    pure
        (record { rows = last.0; statement_count = length statements; row_limit_exceeded = last.1 })
