-- ===== src/Batch/Run/Accounts.antt =====
-- baseline_batch.py: no attempt of a schedule is lost.
use text.Mathlib.Text.{◌==◌ as str_eq}
use omni_benchmark.Prelude.{
  ℕ, ap, total, total-append, total-length, ◌+◌, ◌≡◌, refl, Bool, true, false, Option, none, some,
  List, [], ◌∷◌, length, ltb, arith, Bool-cases, inl, inr, if◌then◌else◌,
}
use omni_benchmark.Action.{Result, ok, raise}
use omni_benchmark.Batch.{
  BatchBudget, BaselineAttempt, AttemptObservation, BatchError, attempt_id, invalid_concurrency,
}
use omni_benchmark.Batch.Queues.{Queues, enqueue, enqueue_all, database_queues, remaining}
use omni_benchmark.Batch.Queues.Keyed.{database_queues-IsKeyed, queued, remaining-queued}
use omni_benchmark.Batch.Loop.Bounds.{KeepsAttempts}
use omni_benchmark.Batch.Loop.{Environment, BatchState}
use omni_benchmark.Batch.Run.Reached.{begun, IsSound, Reached-IsSound, Reports, batch_loop-Reports}
use omni_benchmark.Batch.Run.{
  BatchOutcome, reported, failed, out_of_fuel, Reconciled, found_or_pending, reconcile_schedule,
  initial, begin_loop, begin, deadline_of, run_baseline_batch,
}

queued-enqueue :
    (f : BaselineAttempt → ℕ) (a : BaselineAttempt) (queues : Queues)
    → queued f (enqueue a queues) ≡ queued f queues + f a
unfolding enqueue
queued-enqueue f a [] = omega arith
queued-enqueue f a ((database, queue) ∷ rest) = elim (Bool-cases (str_eq database a.database)) [
  | inl e ↦ rw e (omega (arith, total-append f queue (a ∷ [])))
  | inr e ↦ rw e (omega (arith, queued-enqueue f a rest))
]

queued-enqueue_all :
    (f : BaselineAttempt → ℕ) (queues : Queues) (pending : List BaselineAttempt)
    → queued f (enqueue_all queues pending) ≡ queued f queues + total f pending
unfolding enqueue_all
queued-enqueue_all f queues [] = omega arith
queued-enqueue_all f queues (a ∷ pending) =
    omega (arith, queued-enqueue_all f (enqueue a queues) pending, queued-enqueue f a queues)

queued-database_queues :
    (f : BaselineAttempt → ℕ) (pending : List BaselineAttempt)
    → queued f (database_queues pending) ≡ total f pending
unfolding database_queues
queued-database_queues f pending = omega (arith, queued-enqueue_all f [] pending)

pub remaining-database_queues :
    (pending : List BaselineAttempt) → remaining (database_queues pending) ≡ length pending
remaining-database_queues pending = omega (
  arith,
  remaining-queued (database_queues pending),
  queued-database_queues (λ a. 1) pending,
  total-length pending,
)

module _ (env : Environment) (b : BatchBudget) where
  -- The attempts of a schedule are those observed and those pending, each as often as there.
  abbrev pub AreAll : List BaselineAttempt → List AttemptObservation → List BaselineAttempt → Type 0
  AreAll attempts observations pending =
      (f : BaselineAttempt → ℕ)
      → total (λ o. f o.attempt) observations + total f pending ≡ total f attempts

  abbrev Splits : List BaselineAttempt → Result BatchError (Reconciled env b) → Type 0
  Splits n (ok (observations, pending)) = AreAll n observations pending
  Splits n (raise e) = Unit

  found_or_pending-Splits :
      (n : List BaselineAttempt) (a : BaselineAttempt)
      (found : Result BatchError (Option AttemptObservation))
      (rest : Result BatchError (Reconciled env b))
      → ((o : AttemptObservation) → found ≡ ok (some o) → o.attempt ≡ a)
      → Splits n rest
      → Splits (a ∷ n) (found_or_pending env b a found rest)
  unfolding attempt_id
  found_or_pending-Splits n a (raise e) rest same h = tt
  found_or_pending-Splits n a (ok none) (ok r) same h = λ f. omega (arith, h f)
  found_or_pending-Splits n a (ok none) (raise e) same h = tt
  found_or_pending-Splits n a (ok (some o)) (raise e) same h =
      elim (Bool-cases (str_eq (attempt_id o.attempt) (attempt_id a))) [
        | inl k ↦ rw k tt
        | inr k ↦ rw k tt
      ]
  found_or_pending-Splits n a (ok (some o)) (ok r) same h =
      elim (Bool-cases (str_eq (attempt_id o.attempt) (attempt_id a))) [
        | inl k ↦ rw k (λ f. omega (arith, h f, ap f (same o refl)))
        | inr k ↦ rw k tt
      ]

  pub reconcile_schedule-Splits :
      KeepsAttempts env b
      → (attempts : List BaselineAttempt) (w : env.World)
      → Splits attempts (reconcile_schedule env b attempts w).0
  unfolding reconcile_schedule
  reconcile_schedule-Splits same [] w = λ f. refl
  reconcile_schedule-Splits same (a ∷ attempts) w =
      let (found, w') = env.reconcile a w in
      found_or_pending-Splits attempts a found _ (λ o e. same a w w' o (ap (λ x. (x, w')) e))
        (reconcile_schedule-Splits same attempts w')

  -- What a report accounts for.
  pub Accounts : List BaselineAttempt → BatchOutcome env b → Type 0
  Accounts attempts (reported s status) =
      (f : BaselineAttempt → ℕ)
      → total (λ o. f o.attempt) s.observations + queued f s.queues + total f s.futures
        ≡ total f attempts
  Accounts n other = Unit

  pub initial-IsSound :
      (observations : List AttemptObservation) (pending : List BaselineAttempt) (spent : ℕ)
      (n : List BaselineAttempt) (w : env.World)
      → AreAll n observations pending
      → IsSound env b n [] (initial env b observations pending spent w)
  unfolding initial
  initial-IsSound observations pending spent n w h = record {
    exclusive = record {
      active = λ d. omega arith;
      once = λ d. omega arith;
      keyed = database_queues-IsKeyed pending;
    };
    accounted = λ f. omega (arith, h f, queued-database_queues f pending);
  }

  Reports-Accounts :
      KeepsAttempts env b
      → (n : List BaselineAttempt) (start : BatchState env b) (r : BatchOutcome env b)
      → IsSound env b n [] start
      → Reports env b start r
      → Accounts n r
  unfolding Reports Accounts
  Reports-Accounts same n start (reported s status) k h =
      λ f. omega (arith, (Reached-IsSound env b n same start s [] k h).accounted f)
  Reports-Accounts same n start (failed e) k h = tt
  Reports-Accounts same n start out_of_fuel k h = tt

  begin_loop-Accounts :
      KeepsAttempts env b
      → (n : List BaselineAttempt) (maximum : ℕ) (deadline : Option ℕ)
        (observations : List AttemptObservation) (pending : List BaselineAttempt)
        (cost : Result BatchError ℕ) (w : env.World)
      → AreAll n observations pending
      → Accounts n (begin_loop env b maximum deadline observations pending cost w)
  unfolding begin_loop Accounts
  begin_loop-Accounts same n maximum deadline observations pending (raise e) w h = tt
  begin_loop-Accounts same n maximum deadline observations pending (ok spent) w h =
      Reports-Accounts same n _ _ (initial-IsSound observations pending spent n w h)
        (batch_loop-Reports env b _ maximum deadline _ _ begun)

  begin-Accounts :
      KeepsAttempts env b
      → (n : List BaselineAttempt) (maximum : ℕ) (policy : Option ℕ)
        (r : Result BatchError (Reconciled env b)) (w : env.World)
      → Splits n r
      → Accounts n (begin env b maximum policy r w)
  unfolding begin Accounts
  begin-Accounts same n maximum policy (raise e) w h = tt
  begin-Accounts same n maximum policy (ok (observations, pending)) w h =
      let (now, w') = env.monotonic w in
      begin_loop-Accounts same n maximum (deadline_of env b policy now) observations pending _ w' h

  Accounts-if :
      (n : List BaselineAttempt) (t : Bool) (x y : BatchOutcome env b)
      → Accounts n x
      → Accounts n y
      → Accounts n (if t then x else y)
  Accounts-if n true x y h k = h
  Accounts-if n false x y h k = k

  -- If the repository finds observations of the attempts that it is asked for, then however a batch is
  -- stopped, its report accounts for each attempt of the schedule: those observed, queued and in
  -- flight are those of the schedule, each as often as there.
  pub run_baseline_batch-Accounts :
      KeepsAttempts env b
      → (attempts : List BaselineAttempt) (maximum : ℕ) (policy : Option ℕ) (w : env.World)
      → Accounts attempts (run_baseline_batch env b attempts maximum policy w)
  unfolding run_baseline_batch Accounts
  run_baseline_batch-Accounts same attempts maximum policy w =
      Accounts-if _ (ltb maximum 1) (failed invalid_concurrency) _ tt
        (begin-Accounts same _ maximum policy _ _ (reconcile_schedule-Splits same attempts w))
