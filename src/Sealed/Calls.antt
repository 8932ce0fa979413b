-- ===== src/Sealed/Calls.antt =====
-- src/omni_benchmark/sealed_scoring.py: the calls of the
-- isolation provider and of connections, with a log of them.
use omni_benchmark.Prelude.{String, Option, none, some, List, ◌∷◌}
use omni_benchmark.Action.{Result, ok, raise, Action, pure, ◌>>=◌, try_except}
use omni_benchmark.Postgres.{Exception, Driver}
use omni_benchmark.Sealed.{
  ScoringMode, FailureClass, database_close_failed, database_reset_failed, database_release_failed,
  SealedScoringResult, infrastructure_failure, Uncaught, Call, acquired, opened, closed, reset,
  released, Provider,
}

-- `a or b`, for results that are `None` or true.
abbrev pub or_else {ℓ} : {A : Type ℓ} → Option A → Option A → Option A
or_else (some a) b = some a
or_else none b = b

abbrev pub result_or : Option SealedScoringResult → SealedScoringResult → SealedScoringResult
result_or (some a) b = a
result_or none b = b

module _ (d : Driver) (p : Provider d) where
  pub record State : Type 0 where
    pub world : d.World
    pub calls : List (Call p.Isolate d.Connection)

  abbrev pub M : Type 0 → Type 0
  M A = Action State Uncaught A

  -- A call of the outside world, and what the log says of its answer.
  abbrev pub Note : Type 0 → Type 0
  Note A =
      Result Exception A → List (Call p.Isolate d.Connection) → List (Call p.Isolate d.Connection)

  pub calling : {A : Type 0} → Action d.World Exception A → Note A → Action State Exception A
  calling m note s = let (r, w) = m s.world in (r, record { world = w; calls = note r s.calls })

  abbrev pub noting : {A : Type 0} → (A → Call p.Isolate d.Connection) → Note A
  noting f (ok a) calls = f a ∷ calls
  noting f (raise e) calls = calls

  unfoldable pub acquire : String → Action State Exception p.Isolate
  unfolding calling
  acquire database = calling (p.acquire database) (noting acquired)

  unfoldable pub connect_scoring : p.Isolate → Action State Exception d.Connection
  unfolding calling
  connect_scoring isolate = calling (p.connect_scoring isolate) (noting (opened isolate))

  unfoldable pub connect_trusted : p.Isolate → Action State Exception d.Connection
  unfolding calling
  connect_trusted isolate = calling (p.connect_trusted isolate) (noting (opened isolate))

  -- `except Exception: return _infrastructure(mode, failure)` around a call with no result.
  unfoldable pub failing :
      ScoringMode → FailureClass → Action State Exception Unit → M (Option SealedScoringResult)
  failing mode failure m =
      try_except m (λ _. pure none) (λ _. pure (some (infrastructure_failure mode failure)))

  -- `_close_connection`
  unfoldable pub close_connection : ScoringMode → d.Connection → M (Option SealedScoringResult)
  unfolding calling
  close_connection mode conn =
      failing mode database_close_failed (calling (p.close conn) (λ _ calls. closed conn ∷ calls))

  -- `_reset_and_release`
  unfoldable pub reset_and_release : ScoringMode → p.Isolate → M (Option SealedScoringResult)
  unfolding calling
  reset_and_release mode isolate = do
    reset_failure ←
        failing mode database_reset_failed
          (calling (p.reset_isolate isolate) (λ _ calls. reset isolate ∷ calls))
    release_failure ←
        failing mode database_release_failed
          (calling (p.release isolate) (λ _ calls. released isolate ∷ calls))
    pure (or_else release_failure reset_failure)

  -- `_finalize_pair`
  unfoldable pub finalize_pair :
      ScoringMode → p.Isolate → p.Isolate → M (Option SealedScoringResult)
  finalize_pair mode candidate_isolate gold_isolate = do
    first ← reset_and_release mode candidate_isolate
    second ← reset_and_release mode gold_isolate
    pure (or_else first second)
