-- ===== src/Batch/Run/Completes.antt =====
-- baseline_batch.py: with enough money, no deadline and executors that succeed, a batch completes.
use omni_benchmark.Batch.{BatchBudget, BaselineAttempt}
use omni_benchmark.Prelude.{ℕ, total, ◌≡◌, List, length}
use omni_benchmark.Batch.Queues.{remaining}
use omni_benchmark.Batch.Loop.{Environment}
use omni_benchmark.Batch.Run.{complete, BatchOutcome, reported}

module _ (env : Environment) (b : BatchBudget) where
  -- A complete batch, which observed the attempts of a schedule, each as often as it stands there.
  pub Completes : List BaselineAttempt → BatchOutcome env b → Type 0
  Completes n (reported s status) =
      (status ≡ complete)
      × (remaining s.queues ≡ 0)
      × (length s.futures ≡ 0)
      × ((f : BaselineAttempt → ℕ) → total (λ o. f o.attempt) s.observations ≡ total f n)
  Completes n other = ⊥
