-- ===== src/Sealed/Query/Leases.antt =====
-- sealed_scoring.py: how `score_query` and its parts use the provider.
use omni_benchmark.Sealed.Calls.{
  failing, noting, connect_scoring, connect_trusted, close_connection,
}
use omni_benchmark.Action.{settle, Result, ok, raise, pure, ◌>>=◌, try_except, try_finally}
use omni_benchmark.Postgres.{Exception, Driver}
use omni_benchmark.Sealed.Phases.{
  after_detection, Act, execute_phase, on_connection, run_trusted_phase, execute_candidate,
  run_candidate, run_gold,
}
use mathlib.Core.Logic.{◌⊎◌}
use omni_benchmark.Prelude.{◌≡◌, List, [], ◌∷◌, String, Bool, true, false, arith}
use omni_benchmark.Sealed.{
  ScoringMode, official, sensitivity, Provider, Call, opened, closed, Phase, Phased, ran, ended,
}
use omni_benchmark.Sealed.Protocol.{
  Visits, stay, visit, Logs, Chains-Same, Chains-Visits, Same, Logs-pure, Logs-bind,
}

module _ (d : Driver) (p : Provider d) where
  open d use {Connection, Cell}
  open p use {Isolate}

  execute_phase-Same :
      (mode : ScoringMode) (conn : Connection) (statements : List String) (phase : Phase)
      (read_only : Bool)
      → Logs Same (execute_phase d p mode conn statements phase read_only)
  unfolding execute_phase
  execute_phase-Same mode conn statements phase read_only = record { at = λ s. ground arith }

  after_detection-Same :
      (detection : Phased Cell) (rest : Act d p (Phased Cell))
      → Logs Same rest
      → Logs Same (after_detection d p detection rest)
  unfolding after_detection
  after_detection-Same (ended r) rest h = Logs-pure Chains-Same (ended r)
  after_detection-Same (ran r) rest h = h

  execute_candidate-Same :
      (mode : ScoringMode) (conn : Connection) (authored scoring : List String)
      → Logs Same (execute_candidate d p mode conn authored scoring)
  unfolding execute_candidate
  execute_candidate-Same sensitivity conn authored scoring =
      execute_phase-Same sensitivity conn scoring _ true
  execute_candidate-Same official conn authored scoring =
      Logs-bind Chains-Same _ _ (execute_phase-Same official conn authored _ true) (λ detection.
        after_detection-Same detection _ (execute_phase-Same official conn scoring _ true))

  -- A connection is closed at the end, whatever its body does.
  on_connection-closes :
      (mode : ScoringMode) (conn : Connection) (body : Act d p (Phased Cell))
      → Logs Same body
      → Logs (λ l l'. l' ≡ closed conn ∷ l) (on_connection d p mode conn body)
  unfolding on_connection close_connection failing ◌>>=◌ try_finally try_except
  on_connection-closes mode conn body h = record { at = λ s. ground (arith, h.at s) }

  module _ (a b i : Isolate) (here : (i ≡ a) ⊎ (i ≡ b)) {A : Type 0} (f : Connection → Act d p A)
      (g : Exception → Act d p A) where
    abbrev Closes : Type 0
    Closes = (conn : Connection) → Logs (λ l l'. l' ≡ closed conn ∷ l) (f conn)

    abbrev Idle : Type 0
    Idle = (e : Exception) → Logs Same (g e)

    connection-Visits :
        Closes
        → Idle
        → (r : Result Exception Connection) (w : d.World) (l : List (Call Isolate Connection))
        → Visits a b l
            (settle r f g (record { world = w; calls = noting d p (opened i) r l })).1.calls
    connection-Visits hf hg (ok conn) w l = rw ((hf conn).at _) (visit i conn here stay)
    connection-Visits hf hg (raise e) w l = rw ((hg e).at _) stay

    connect_scoring-Visits :
        Closes → Idle → Logs (Visits a b) (try_except (connect_scoring d p i) f g)
    unfolding connect_scoring try_except
    connect_scoring-Visits hf hg = record { at = λ s. connection-Visits hf hg _ _ s.calls }

    pub connect_trusted-Visits :
        Closes → Idle → Logs (Visits a b) (try_except (connect_trusted d p i) f g)
    unfolding connect_trusted try_except
    connect_trusted-Visits hf hg = record { at = λ s. connection-Visits hf hg _ _ s.calls }

  -- What follows a bind that leaves the log alone.
  closes-then-pure :
      (conn : Connection) {A B : Type 0} (m : Act d p A) (f : A → B)
      → Logs (λ l l'. l' ≡ closed conn ∷ l) m
      → Logs (λ l l'. l' ≡ closed conn ∷ l) (m >>= λ a. pure (f a))
  unfolding ◌>>=◌
  closes-then-pure conn m f h = record { at = λ s. ground (arith, h.at s) }

  module _ (a b i : Isolate) (here : (i ≡ a) ⊎ (i ≡ b)) (mode : ScoringMode) where
    pub run_trusted_phase-Visits :
        (statements : List String) (phase : Phase)
        → Logs (Visits a b) (run_trusted_phase d p statements mode i phase)
    unfolding run_trusted_phase
    run_trusted_phase-Visits [] phase = Logs-pure Chains-Visits _
    run_trusted_phase-Visits (sql ∷ rest) phase =
        connect_trusted-Visits a b i here _ _
          (λ conn. closes-then-pure conn _ _ (
            on_connection-closes mode conn _
              (execute_phase-Same mode conn (sql ∷ rest) phase false)))
          (λ _. Logs-pure Chains-Same _)

    pub run_candidate-Visits :
        (authored scoring : List String)
        → Logs (Visits a b) (run_candidate d p authored scoring mode i)
    unfolding run_candidate
    run_candidate-Visits authored scoring =
        connect_scoring-Visits a b i here _ _
          (λ conn.
            closes-then-pure conn _ _ (
              on_connection-closes mode conn _ (execute_candidate-Same mode conn authored scoring)))
          (λ _. Logs-pure Chains-Same _)

    pub run_gold-Visits : (scoring : List String) → Logs (Visits a b) (run_gold d p scoring mode i)
    unfolding run_gold
    run_gold-Visits scoring =
        connect_scoring-Visits a b i here _ _
          (λ conn.
            closes-then-pure conn _ _
              (on_connection-closes mode conn _ (execute_phase-Same mode conn scoring _ true)))
          (λ _. Logs-pure Chains-Same _)
