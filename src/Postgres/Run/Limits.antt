-- ===== src/Postgres/Run/Limits.antt =====
-- postgres_execution.py: bounds on what `execute_query_sequence` returns and reports.
use omni_benchmark.Prelude.{
  ℕ, ◌+◌, ◌≤◌, ◌<◌, ◌≡◌, refl, String, Bool, Option, none, some, List, [], ◌∷◌, arith, length,
  length-take,
}
use omni_benchmark.Action.Yields.{
  Anything, Yields, Yields-pure, Yields-throw, Yields-if, Yields-bind, Yields-try, Yields-any,
  Yields-held, Yields-lift, Yields-weaken,
}
use omni_benchmark.Postgres.{
  max_result_rows, ExecutionError, Exception, Driver, Rows, infrastructure_error,
  to_execution_error,
}
use omni_benchmark.Postgres.Run.{
  Fetched, fetch, statement_body, recover, with_cursor, execute_statement, run_statements,
  execute_query_sequence,
}

module _ {Cell : Type 0} where
  abbrev pub IsLimited : Option (Rows Cell) → Type 0
  IsLimited none = Unit
  IsLimited (some rows) = length rows ≤ max_result_rows

-- The error is about a statement from number `i` on, and below `n`.
abbrev pub IsAbout : ℕ → ℕ → ExecutionError → Type 0
IsAbout i n e = (i ≤ e.statement_index) × (e.statement_index < n)

module _ (d : Driver) where
  open d use {Connection, Cursor}

  abbrev Fits : Fetched d → Type 0
  Fits r = IsLimited r.0

  fetch-Yields : (cur : Cursor) → Yields Fits Anything (fetch d cur)
  unfolding fetch
  fetch-Yields cur = Yields-bind (d.has_description cur) _ (Yields-any _) (λ described _.
      Yields-if described _ _
        (Yields-bind (d.fetchmany cur _) _ (Yields-any _)
          (λ rows _. Yields-pure _ (omega (arith, length-take max_result_rows rows))))
        (Yields-pure _ tt))

  module _ (conn : Connection) (timeout_text : String) (timeout_ms : ℕ) (read_only : Bool) where
    statement_body-Yields :
        (cur : Cursor) (sql : String) (i : ℕ)
        → Yields Fits Anything (statement_body d conn cur sql i timeout_text timeout_ms read_only)
    unfolding statement_body
    statement_body-Yields cur sql i = Yields-bind _ _ (Yields-any _) λ _ _.
        Yields-bind _ _ (Yields-any _) λ _ _. Yields-bind _ _ (Yields-any _) λ _ _.
          Yields-bind _ _ (Yields-any _)
            λ _ _. Yields-bind _ _ (Yields-any _) λ _ _. fetch-Yields cur

    recover-Yields :
        (i : ℕ) (e : Exception) → Yields Fits (λ e. e.statement_index ≡ i) (recover d conn i e)
    unfolding recover to_execution_error infrastructure_error
    recover-Yields i e =
        Yields-try _ _ _ (Yields-any (d.rollback conn)) (λ _ _. Yields-throw _ refl)
          (λ _ _. Yields-throw _ refl)

    with_cursor-Yields :
        (cur : Cursor) (sql : String) (i : ℕ)
        → Yields Fits
            (λ e. e.statement_index ≡ i)
            (with_cursor d conn cur sql i timeout_text timeout_ms read_only)
    unfolding with_cursor infrastructure_error
    with_cursor-Yields cur sql i =
        Yields-bind _ _
          (Yields-held _ (
            Yields-try _ _ _ (statement_body-Yields cur sql i) (λ r h. Yields-pure r h)
              (λ e _. recover-Yields i e)))
          (λ outcome h.
            Yields-try _ _ _ (Yields-any (d.close_cursor cur)) (λ _ _. Yields-lift outcome h)
              (λ _ _. Yields-throw _ refl))

    execute_statement-Yields :
        (sql : String) (i : ℕ)
        → Yields Fits
            (λ e. e.statement_index ≡ i)
            (execute_statement d conn sql i timeout_text timeout_ms read_only)
    unfolding execute_statement infrastructure_error
    execute_statement-Yields sql i =
        Yields-try _ _ _ (Yields-any (d.cursor conn)) (λ cur _. with_cursor-Yields cur sql i)
          (λ _ _. Yields-throw _ refl)

    run_statements-Yields :
        (statements : List String) (i : ℕ) (last : Fetched d)
        → Fits last
        → Yields Fits
            (IsAbout i (i + length statements))
            (run_statements d conn statements i timeout_text timeout_ms read_only last)
    unfolding run_statements
    run_statements-Yields [] i last h = Yields-pure last h
    run_statements-Yields (sql ∷ rest) i last h =
        Yields-bind _ _
          (Yields-weaken _ (execute_statement-Yields sql i) (λ r k. k) (λ e k. omega arith))
          (λ r k.
            Yields-weaken _ (run_statements-Yields rest (i + 1) r k) (λ _ l. l)
              (λ e l. omega arith))

  -- Whatever the driver answers, a sequence of statements returns at most `max_result_rows` rows
  -- and the number of its statements, or raises an error about one of its statements.
  pub execute_query_sequence-IsLimited :
      (conn : Connection) (statements : List String) (read_only : Bool)
      → Yields
          (λ r. IsLimited r.rows × (r.statement_count ≡ length statements))
          (λ e. e.statement_index < length statements)
          (execute_query_sequence d conn statements read_only)
  unfolding execute_query_sequence
  execute_query_sequence-IsLimited conn statements read_only =
      Yields-bind _ _
        (Yields-weaken _ (run_statements-Yields conn _ _ read_only statements 0 _ tt) (λ _ h. h)
          (λ e h. omega arith))
        (λ last h. Yields-pure _ (h, refl))
