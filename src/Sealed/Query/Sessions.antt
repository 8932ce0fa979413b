-- ===== src/Sealed/Query/Sessions.antt =====
-- sealed_scoring.py: every scoring is a session of the protocol, whatever the provider answers.
use omni_benchmark.Prelude.{true, ◌&&◌, is_empty, not, ◌≡◌, refl, List, ◌∷◌, Option, ap}
use omni_benchmark.Sealed.{
  candidate_result_overflow, system_failure_at, value_error, gold_query_missing,
  candidate_disallowed_statement, no_query, system_no_answer, Uncaught, database_acquire_failed,
  infrastructure_failure, ScoringMode, SealedScoringResult, Scorers, Provider, Call, acquired,
}
use omni_benchmark.Sealed.Query.{
  overflows, validate_case, score_on_isolates, acquire_gold, give_up, score_admitted, score_query,
  score_against_gold, score_precomputed_result, precomputed,
}
use omni_benchmark.Sealed.Query.Isolates.{
  reset_and_release-log, pure_tail, after_gold-Visits, score_on_isolates-pair,
}
use omni_benchmark.Sealed.Compare.{gold_scoring_sql, Case}
use omni_benchmark.Sealed.Calls.{noting, result_or, State, acquire}
use omni_benchmark.Action.{
  settle, Result, ok, raise, ◌>>=◌, ◌>>◌, try_except, try_finally, pure, lift, throw,
}
use mathlib.Core.Path.{subst, sym}
use mathlib.Core.Logic.{inl}
use omni_benchmark.Postgres.{Driver, Rows, Exception}
use omni_benchmark.Sealed.Phases.{Act}
use omni_benchmark.Sealed.Protocol.{
  Visits-from, stay, Session, untouched, single, Logs, Chains-Visits, Logs-bind, Logs-if,
}
use omni_benchmark.Sealed.Query.Leases.{run_gold-Visits}

module _ (d : Driver) (p : Provider d) (sc : Scorers d.Cell) where
  open p use {Isolate}

  module _ (c : Case d sc) (mode : ScoringMode) where
    given_up :
        {a : Isolate} (x : Exception) (before : List (Call Isolate d.Connection)) (s : State d p)
        → s.calls ≡ acquired a ∷ before
        → Session before (give_up d p sc mode a x s).1.calls
    unfolding give_up
    given_up {a} x before s e =
        rw
          (pure_tail d p sc _
            (λ (failure : Option SealedScoringResult).
              result_or failure (infrastructure_failure mode database_acquire_failed))
            s)
          (subst (Session before) (sym ((reset_and_release-log d p sc mode a).at _))
            (single a (Visits-from e stay)))

    acquire_gold-Session :
        (a : Isolate) (before : List (Call Isolate d.Connection)) (s : State d p)
        → s.calls ≡ acquired a ∷ before
        → Session before (acquire_gold d p sc c mode a s).1.calls
    unfolding acquire_gold acquire try_except
    acquire_gold-Session a before s e = gold (p.acquire c.database s.world)
      where
        gold :
            (r : Result Exception Isolate × d.World)
            → Session before
                (settle r.0
                  (score_on_isolates d p sc c mode a)
                  (give_up d p sc mode a)
                  (record { world = r.1; calls = noting d p acquired r.0 s.calls })).1.calls
        gold (ok b, w) =
            score_on_isolates-pair d p sc c mode a b before _ (ap (λ l. acquired b ∷ l) e)
        gold (raise x, w) = given_up x before _ e

    score_admitted-Session : Logs Session (score_admitted d p sc c mode)
    unfolding score_admitted acquire try_except
    score_admitted-Session = record { at = λ s. first s (p.acquire c.database s.world) }
      where
        first :
            (s : State d p) (r : Result Exception Isolate × d.World)
            → Session s.calls
                (settle r.0
                  (acquire_gold d p sc c mode)
                  (λ _. pure (infrastructure_failure mode database_acquire_failed))
                  (record { world = r.1; calls = noting d p acquired r.0 s.calls })).1.calls
        first s (ok a, w) = acquire_gold-Session a s.calls _ refl
        first s (raise x, w) = untouched

  idle-Session : {A : Type 0} (a : A) → Logs Session (pure {S = State d p} {E = Uncaught} a)
  unfolding pure
  idle-Session a = record { at = λ s. untouched }

  throw-Session : {A : Type 0} (e : Uncaught) → Logs Session (throw {S = State d p} {A = A} e)
  unfolding throw
  throw-Session e = record { at = λ s. untouched }

  lift-Session :
      {A : Type 0} (r : Result Uncaught (Unit {0})) (m : Act d p A)
      → Logs Session m
      → Logs Session (lift r >> m)
  unfolding ◌>>=◌
  lift-Session (ok a) m h = record { at = h.at }
  lift-Session (raise e) m h = record { at = λ s. untouched }

  -- Whatever the provider and the databases answer and whatever escapes from it, a scoring visits
  -- its isolates one connection at a time, closes each connection before its next call, and wipes
  -- and gives back each isolate that it acquired at the end.
  pub score_query-Session :
      (c : Case d sc) (mode : ScoringMode) → Logs Session (score_query d p sc c mode)
  unfolding score_query
  score_query-Session c mode = lift-Session (validate_case d p sc c) _ (
      Logs-if (is_empty c.candidate_sql) (pure (system_no_answer mode no_query)) _ (idle-Session _)
        (Logs-if (not (sc.is_admissible c.candidate_sql))
          (pure (system_no_answer mode candidate_disallowed_statement)) _ (idle-Session _)
          (Logs-if (is_empty c.gold_sql) (pure (infrastructure_failure mode gold_query_missing)) _
            (idle-Session _) (score_admitted-Session c mode))))

  module _ (c : Case d sc) (rows : Rows d.Cell) (mode : ScoringMode) where
    score_against_gold-Session :
        (a : Isolate) (before : List (Call Isolate d.Connection)) (s : State d p)
        → s.calls ≡ acquired a ∷ before
        → Session before (score_against_gold d p sc c rows mode a s).1.calls
    unfolding score_against_gold try_finally
    score_against_gold-Session a before s e =
        let inner =
          Logs-bind Chains-Visits _ _
            (run_gold-Visits d p a a a (inl refl) mode (gold_scoring_sql d sc c mode))
            (after_gold-Visits d p sc c mode a a (precomputed d p sc rows)) in
        let result =
          λ (ends : SealedScoringResult × Option SealedScoringResult). result_or ends.1 ends.0 in
        rw (pure_tail d p sc _ result s) (
          subst (Session before) (sym ((reset_and_release-log d p sc mode a).at _))
            (single a (Visits-from e (inner.at s))))

    acquired-Session : Logs Session (
        try_except
          (acquire d p c.database)
          (score_against_gold d p sc c rows mode)
          (λ _. pure (infrastructure_failure mode database_acquire_failed)))
    unfolding acquire try_except
    acquired-Session = record { at = λ s. first s (p.acquire c.database s.world) }
      where
        first :
            (s : State d p) (r : Result Exception Isolate × d.World)
            → Session s.calls
                (settle r.0
                  (score_against_gold d p sc c rows mode)
                  (λ _. pure (infrastructure_failure mode database_acquire_failed))
                  (record { world = r.1; calls = noting d p acquired r.0 s.calls })).1.calls
        first s (ok a, w) = score_against_gold-Session a s.calls _ refl
        first s (raise x, w) = untouched

  -- The scoring of rows that were computed before keeps the same protocol: it opens connections on its
  -- isolates one at a time, closes each before its next call, and resets and releases each isolate
  -- that it acquired at the end.
  pub score_precomputed_result-Session :
      (c : Case d sc) (rows : Rows d.Cell) (mode : ScoringMode)
      → Logs Session (score_precomputed_result d p sc c rows mode)
  unfolding score_precomputed_result
  score_precomputed_result-Session c rows mode = lift-Session (validate_case d p sc c) _ (
      Logs-if
        (not (is_empty c.candidate_sql && is_empty c.preprocess_sql && is_empty c.cleanup_sql))
        (throw value_error) _ (throw-Session _)
        (Logs-if (overflows d p sc mode rows)
          (pure (system_failure_at mode candidate_result_overflow true)) _ (idle-Session _)
          (Logs-if (is_empty c.gold_sql) (pure (infrastructure_failure mode gold_query_missing)) _
            (idle-Session _) (acquired-Session c rows mode))))
