-- ===== src/Sealed/Query/Taxonomy.antt =====
-- sealed_scoring.py: every result of a scoring has one of the labels of `Labels`.
use omni_benchmark.Sealed.Calls.{connect_trusted, connect_scoring}
use omni_benchmark.Sealed.{
  preprocess, Phase, ScoringMode, official, sensitivity, Provider, Phased, ran, ended,
}
use omni_benchmark.Prelude.{◌≡◌, refl, Bool, true, false, Option, none, some, List, [], ◌∷◌, String}
use omni_benchmark.Sealed.Query.Labels.{
  infrastructure_at-IsLabelled, system_failure_at-IsLabelled, infrastructure_failure-IsLabelled,
  is_owned, system_failure-IsLabelled, IsFine, EndsLabelled, IsExpected, execute_phase-Yields,
  on_connection-Yields,
}
use omni_benchmark.Postgres.{QuerySequenceResult, Driver, Rows}
use omni_benchmark.Sealed.Phases.{
  Act, after_detection, candidate_end, execute_candidate, failure_of, gold_end, run_candidate,
  run_gold, run_trusted_phase, settle_candidate, settle_gold, trusted_connect_failure,
}
use omni_benchmark.Action.Yields.{Yields, Yields-any, Yields-pure, Yields-bind, Yields-try}

module _ (mode : ScoringMode) (d : Driver) (p : Provider d) where
  trusted_connect_failure-owned :
      (phase : Phase) → is_owned (trusted_connect_failure d p phase) ≡ false
  unfolding trusted_connect_failure
  trusted_connect_failure-owned preprocess = refl
  trusted_connect_failure-owned _ = refl

  failure_of-IsFine : (r : Phased d.Cell) → EndsLabelled mode r → IsFine mode (failure_of d p r)
  failure_of-IsFine (ran r) h = tt
  failure_of-IsFine (ended r) h = h

  pub run_trusted_phase-Yields :
      (statements : List String) (i : p.Isolate) (phase : Phase)
      → Yields (IsFine mode) (IsExpected mode) (run_trusted_phase d p statements mode i phase)
  unfolding run_trusted_phase
  run_trusted_phase-Yields [] i phase = Yields-pure none tt
  run_trusted_phase-Yields (sql ∷ rest) i phase =
      Yields-try _ _ _ (Yields-any (connect_trusted d p i))
        (λ conn _.
          Yields-bind _ _
            (on_connection-Yields mode d p conn _
              (execute_phase-Yields mode d p conn (sql ∷ rest) phase false))
            (λ r h. Yields-pure _ (failure_of-IsFine r h)))
        (λ _ _.
          Yields-pure _
            (infrastructure_failure-IsLabelled mode _ (trusted_connect_failure-owned phase)))

  candidate_end-EndsLabelled :
      (m : ScoringMode) (r : QuerySequenceResult d.Cell) (rows : Option (Rows d.Cell)) (over : Bool)
      → EndsLabelled m (candidate_end d p m r rows over)
  unfolding candidate_end
  candidate_end-EndsLabelled m r none over = system_failure-IsLabelled m _ refl
  candidate_end-EndsLabelled sensitivity r (some rows) true =
      system_failure_at-IsLabelled _ _ _ refl
  candidate_end-EndsLabelled _ r (some rows) _ = tt

  gold_end-EndsLabelled :
      (m : ScoringMode) (r : QuerySequenceResult d.Cell) (rows : Option (Rows d.Cell)) (over : Bool)
      → EndsLabelled m (gold_end d p m r rows over)
  unfolding gold_end
  gold_end-EndsLabelled m r none over = infrastructure_failure-IsLabelled m _ refl
  gold_end-EndsLabelled sensitivity r (some rows) true = infrastructure_at-IsLabelled _ _ _ refl
  gold_end-EndsLabelled _ r (some rows) _ = tt

  settle_candidate-EndsLabelled :
      (r : Phased d.Cell) → EndsLabelled mode r → EndsLabelled mode (settle_candidate d p mode r)
  unfolding settle_candidate
  settle_candidate-EndsLabelled (ended r) h = h
  settle_candidate-EndsLabelled (ran r) h = candidate_end-EndsLabelled mode r _ _

  settle_gold-EndsLabelled :
      (r : Phased d.Cell) → EndsLabelled mode r → EndsLabelled mode (settle_gold d p mode r)
  unfolding settle_gold
  settle_gold-EndsLabelled (ended r) h = h
  settle_gold-EndsLabelled (ran r) h = gold_end-EndsLabelled mode r _ _

  pub run_gold-Yields :
      (scoring : List String) (i : p.Isolate)
      → Yields (EndsLabelled mode) (IsExpected mode) (run_gold d p scoring mode i)
  unfolding run_gold
  run_gold-Yields scoring i =
      Yields-try _ _ _ (Yields-any (connect_scoring d p i))
        (λ conn _.
          Yields-bind _ _
            (on_connection-Yields mode d p conn _
              (execute_phase-Yields mode d p conn scoring _ true))
            (λ r h. Yields-pure _ (settle_gold-EndsLabelled r h)))
        (λ _ _. Yields-pure _ (infrastructure_failure-IsLabelled mode _ refl))

module _ (d : Driver) (p : Provider d) where
  after_detection-Yields :
      (detection : Phased d.Cell) (rest : Act d p (Phased d.Cell))
      → EndsLabelled official detection
      → Yields (EndsLabelled official) (IsExpected official) rest
      → Yields (EndsLabelled official) (IsExpected official) (after_detection d p detection rest)
  unfolding after_detection
  after_detection-Yields (ended r) rest h k = Yields-pure _ h
  after_detection-Yields (ran r) rest h k = k

  execute_candidate-Yields :
      (mode : ScoringMode) (conn : d.Connection) (authored scoring : List String)
      → Yields
          (EndsLabelled mode)
          (IsExpected mode)
          (execute_candidate d p mode conn authored scoring)
  unfolding execute_candidate
  execute_candidate-Yields sensitivity conn authored scoring =
      execute_phase-Yields sensitivity d p conn scoring _ true
  execute_candidate-Yields official conn authored scoring =
      Yields-bind _ _ (execute_phase-Yields official d p conn authored _ true) (λ detection h.
        after_detection-Yields detection _ h
          (execute_phase-Yields official d p conn scoring _ true))

  pub run_candidate-Yields :
      (mode : ScoringMode) (authored scoring : List String) (i : p.Isolate)
      → Yields (EndsLabelled mode) (IsExpected mode) (run_candidate d p authored scoring mode i)
  unfolding run_candidate
  run_candidate-Yields mode authored scoring i =
      Yields-try _ _ _ (Yields-any (connect_scoring d p i))
        (λ conn _.
          Yields-bind _ _
            (on_connection-Yields mode d p conn _
              (execute_candidate-Yields mode conn authored scoring))
            (λ r h. Yields-pure _ (settle_candidate-EndsLabelled mode d p r h)))
        (λ _ _. Yields-pure _ (infrastructure_failure-IsLabelled mode _ refl))
