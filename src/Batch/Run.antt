-- ===== src/Batch/Run.antt =====
-- src/omni_benchmark/baseline_batch.py: `run_baseline_batch` from the schedule to its end.
pub mod Moves
pub mod Ends
pub mod Reached
pub mod Accounts
pub mod Payments
pub mod Funded
pub mod Completes
use text.Mathlib.Text.{◌==◌ as str_eq}
use omni_benchmark.Prelude.Text.{member}
use omni_benchmark.Prelude.{
  ℕ, zero, suc, ◌+◌, ◌-◌, String, Bool, true, false, not, ◌&&◌, Option, none, some, List, [], ◌∷◌,
  ltb, leb, ◌==◌, length, map, is_empty, any, if◌then◌else◌,
}
use omni_benchmark.Action.{Result, ok, raise}
use omni_benchmark.Batch.{
  BaselineAttempt, attempt_id, BatchBudget, AttemptObservation, BatchError, hard_budget_cost,
  identity_changed, invalid_concurrency,
}
use omni_benchmark.Batch.Queues.{Queues, database_queues, remaining}
use omni_benchmark.Batch.Loop.{Environment, BatchState, admit, collect}

-- `status` of the report.
pub data Status : Type 0 where
  complete budget_stopped operational_stopped : Status

-- `any(queue and database in started_databases for database, queue in queues.items())`
abbrev pub any_started : List String → Queues → Bool
any_started started queues = any (λ entry. not (is_empty entry.1) && member entry.0 started) queues

module _ (env : Environment) (b : BatchBudget) where
  pub data BatchOutcome : Type 0 where
    reported : BatchState env b → Status → BatchOutcome
    failed : BatchError → BatchOutcome
    out_of_fuel : BatchOutcome

  -- `deadline is not None and monotonic() >= deadline`
  abbrev pub is_late : Option ℕ → env.World → Bool
  is_late none w = false
  is_late (some deadline) w = leb deadline (env.monotonic w).0

  -- The block under `if not futures`.
  pub stop : Option ℕ → BatchState env b → BatchOutcome
  stop deadline s =
      let unfinished = ltb 0 (remaining s.queues) in
      reported s (
        if unfinished && is_late deadline s.world && not (any_started s.started s.queues)
        then operational_stopped
        else if unfinished
        then budget_stopped
        else complete)

  abbrev pub and_go_on :
      Result BatchError (BatchState env b) → (BatchState env b → BatchOutcome) → BatchOutcome
  and_go_on (raise e) next = failed e
  and_go_on (ok s) next = next s

  pub after_admission :
      Option ℕ → (BatchState env b → BatchOutcome) → BatchState env b → BatchOutcome
  unfolding stop
  after_admission deadline next s =
      if is_empty s.futures then stop deadline s else and_go_on (collect env b s) next

  -- `while _remaining(queues) or futures`, on fuel.
  unfoldable pub batch_loop : ℕ → Option ℕ → ℕ → BatchState env b → BatchOutcome
  unfolding after_admission
  batch_loop maximum deadline zero s = out_of_fuel
  batch_loop maximum deadline (suc fuel) s =
      if remaining s.queues == 0 && is_empty s.futures
      then reported s complete
      else after_admission deadline (batch_loop maximum deadline fuel)
          (admit env b deadline (maximum - length s.futures) s)

  abbrev pub Reconciled : Type 0
  Reconciled = List AttemptObservation × List BaselineAttempt

  abbrev pub found_or_pending :
      BaselineAttempt
      → Result BatchError (Option AttemptObservation)
      → Result BatchError Reconciled
      → Result BatchError Reconciled
  found_or_pending a (raise e) rest = raise e
  found_or_pending a (ok none) (ok (observations, pending)) = ok (observations, a ∷ pending)
  found_or_pending a (ok none) (raise e) = raise e
  found_or_pending a (ok (some o)) rest =
      if str_eq (attempt_id o.attempt) (attempt_id a)
      then elim rest [
        | ok (observations, pending) ↦ ok (o ∷ observations, pending)
        | raise e ↦ raise e
      ]
      else raise identity_changed

  -- `_reconcile_schedule`
  unfoldable pub reconcile_schedule :
      List BaselineAttempt → env.World → Result BatchError Reconciled × env.World
  unfolding attempt_id
  reconcile_schedule [] w = (ok ([], []), w)
  reconcile_schedule (a ∷ attempts) w =
      let (found, w') = env.reconcile a w in
      let (rest, w'') = reconcile_schedule attempts w' in (found_or_pending a found rest, w'')

  abbrev and_cost : Result BatchError ℕ → Result BatchError (List ℕ) → Result BatchError (List ℕ)
  and_cost (raise e) rest = raise e
  and_cost (ok n) (raise e) = raise e
  and_cost (ok n) (ok costs) = ok (n ∷ costs)

  -- The amounts that `_observed_cost` sums.
  unfoldable pub costs_of : List AttemptObservation → Result BatchError (List ℕ)
  costs_of [] = ok []
  costs_of (o ∷ observations) = and_cost (hard_budget_cost b o) (costs_of observations)

  abbrev summed : Result BatchError (List ℕ) → Result BatchError ℕ
  summed (raise e) = raise e
  summed (ok costs) = ok (env.sum costs)

  -- `_observed_cost`
  unfoldable pub observed_cost : List AttemptObservation → Result BatchError ℕ
  unfolding costs_of
  observed_cost observations = summed (costs_of observations)

  unfoldable pub initial :
      List AttemptObservation → List BaselineAttempt → ℕ → env.World → BatchState env b
  initial observations pending spent w = record {
    world = w;
    queues = database_queues pending;
    active = [];
    started = map (λ o. o.attempt.database) observations;
    futures = [];
    spent = spent;
    observations = observations;
    completed = 0;
    maximum_observed = 0;
  }

  abbrev pub deadline_of : Option ℕ → ℕ → Option ℕ
  deadline_of none now = none
  deadline_of (some seconds) now = some (now + seconds)

  -- The loop from the amount that the reconciled attempts have cost. Its fuel is the number of the
  -- pending attempts and one: each iteration completes an attempt or ends the loop.
  pub begin_loop :
      ℕ
      → Option ℕ
      → List AttemptObservation
      → List BaselineAttempt
      → Result BatchError ℕ
      → env.World
      → BatchOutcome
  unfolding initial
  begin_loop maximum deadline observations pending (raise e) w = failed e
  begin_loop maximum deadline observations pending (ok spent) w =
      batch_loop maximum deadline (suc (remaining (database_queues pending)))
        (initial observations pending spent w)

  pub begin : ℕ → Option ℕ → Result BatchError Reconciled → env.World → BatchOutcome
  unfolding begin_loop
  begin maximum policy (raise e) w = failed e
  begin maximum policy (ok (observations, pending)) w =
      let (now, w') = env.monotonic w in
      begin_loop maximum (deadline_of policy now) observations pending (observed_cost observations)
        w'

  unfoldable pub run_baseline_batch : List BaselineAttempt → ℕ → Option ℕ → env.World → BatchOutcome
  unfolding begin
  run_baseline_batch attempts maximum policy w =
      if ltb maximum 1
      then failed invalid_concurrency
      else let (reconciled, w') = reconcile_schedule attempts w in
        begin maximum policy reconciled w'
