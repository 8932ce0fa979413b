-- ===== src/Examples/Scoring.antt =====
-- postgres_execution.py and sealed_scoring.py on the counting driver.
use omni_benchmark.Postgres.Run.{drain_all, execute_query_sequence, execute_statement}
use omni_benchmark.Prelude.{arith, ◌<◌, ◌≡◌, refl, [], ◌∷◌, none, true, false}
use omni_benchmark.Examples.Database.{two_sets, counting, stuck, counter, lenient, seven}
use omni_benchmark.Postgres.{statement, infrastructure_error, to_execution_error}
use omni_benchmark.Action.{raise, ◌>>=◌, try_except}
use omni_benchmark.Action.Yields.{Yields}
use omni_benchmark.Postgres.Run.Limits.{execute_query_sequence-IsLimited, IsLimited}
use omni_benchmark.Sealed.{official}
use omni_benchmark.Sealed.Protocol.{Logs, Session}
use omni_benchmark.Sealed.Query.{score_query, score_precomputed_result}
use omni_benchmark.Sealed.Query.Sessions.{score_query-Session, score_precomputed_result-Session}
use omni_benchmark.Sealed.Query.Records.{score_query-IsRecorded, IsRecorded}
use omni_benchmark.Postgres.Run.Drain.{drain_all-Drains, Drains, IsFinite}
use omni_benchmark.Sealed.Query.Verdicts.{score_query-IsLabelled}
use omni_benchmark.Sealed.Query.Labels.{IsLabelled, IsExpected}

execute_query_sequence-IsLimited_example :
    Yields
      (λ r. IsLimited r.rows × (r.statement_count ≡ 2))
      (λ e. e.statement_index < 2)
      (execute_query_sequence counting 0 ("SELECT 1" ∷ "SELECT 2" ∷ []) true)
execute_query_sequence-IsLimited_example =
    execute_query_sequence-IsLimited counting 0 ("SELECT 1" ∷ "SELECT 2" ∷ []) true

-- A statement that cannot be cancelled is reported as its own failure.
not_cancelled :
    (execute_statement stuck 0 "SELECT 1" 0 "SET" 60 false 5).0
    ≡ raise (record { kind = statement; sqlstate = none; statement_index = 0 })
unfolding infrastructure_error execute_statement ◌>>=◌ try_except to_execution_error
not_cancelled = refl

score_query-Session_example :
    Logs Session (score_query counting (counter 100) lenient seven official)
score_query-Session_example = score_query-Session counting (counter 100) lenient seven official

score_precomputed_result-Session_example :
    Logs Session
      (score_precomputed_result counting (counter 100) lenient seven ((7 ∷ []) ∷ []) official)
score_precomputed_result-Session_example =
    score_precomputed_result-Session counting (counter 100) lenient seven ((7 ∷ []) ∷ []) official

score_query-IsLabelled_example :
    Yields
      (IsLabelled official)
      (IsExpected official)
      (score_query counting (counter 100) lenient seven official)
score_query-IsLabelled_example =
    score_query-IsLabelled counting (counter 100) lenient official seven

score_query-IsRecorded_example :
    Yields IsRecorded
      (IsExpected official)
      (score_query counting (counter 100) lenient seven official)
score_query-IsRecorded_example =
    score_query-IsRecorded counting (counter 100) lenient official seven

two_sets-IsFinite : IsFinite two_sets
two_sets-IsFinite cur w w' e = ground (arith, e)

drain_all-Drains_example : Drains two_sets 0 0 (drain_all two_sets 0 0)
drain_all-Drains_example = drain_all-Drains two_sets two_sets-IsFinite 0 0
