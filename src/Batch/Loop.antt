-- ===== src/Batch/Loop.antt =====
-- baseline_batch.py: `run_baseline_batch`. The thread pool, the clock and the repository of attempts
-- are the record `Environment`, whose calls pass on a state of the outside world.
pub mod Money
pub mod Bounds
pub mod Rules
pub mod Exclusive
use Prim.Native.Nat.{max}
use omni_benchmark.Prelude.{
  ℕ, zero, suc, ◌+◌, ◌-◌, String, Bool, true, false, not, Option, none, some, List, [], ◌∷◌, ◌++◌,
  ltb, length, map, keep, if◌then◌else◌,
}
use omni_benchmark.Action.{Result, ok, raise}
use omni_benchmark.Batch.{
  BaselineAttempt, BatchBudget, AttemptObservation, BatchError, reservation_cost, hard_budget_cost,
  executor_failed, no_artifact,
}
use omni_benchmark.Batch.Queues.{Queues, next_attempt, popleft, sort_done, remove}

pub record Environment : Type 1 where
  pub World : Type 0
  -- The sum of two floats, and `sum` of a list of them, in units of money
  pub plus : ℕ → ℕ → ℕ
  pub sum : List ℕ → ℕ
  pub monotonic : World → ℕ × World
  -- `pool.submit(executor, attempt, …)`
  pub submit : BaselineAttempt → World → World
  -- `wait(futures, return_when=FIRST_COMPLETED)`: which of the attempts in flight are done
  pub wait : List BaselineAttempt → World → (BaselineAttempt → Bool) × World
  -- `future.result()`: whether the executor ended with no exception
  pub succeeded : BaselineAttempt → World → Bool × World
  -- `repository.reconcile`: the observation of an attempt whose artifacts are there
  pub reconcile : BaselineAttempt → World → Result BatchError (Option AttemptObservation) × World

module _ (env : Environment) (b : BatchBudget) where
  pub record BatchState : Type 0 where
    pub world : env.World
    pub queues : Queues
    pub active : List String
    pub started : List String
    pub futures : List BaselineAttempt
    pub spent : ℕ
    pub observations : List AttemptObservation
    pub completed : ℕ
    pub maximum_observed : ℕ

  -- `sum(_reservation_cost(value, budget) for value in futures.values())`
  unfoldable pub reserved : List BaselineAttempt → ℕ
  reserved futures = env.sum (map (reservation_cost b) futures)

  -- `deadline is None or monotonic() < deadline`
  abbrev pub allows_new_blocks : Option ℕ → env.World → Bool × env.World
  allows_new_blocks none w = (true, w)
  allows_new_blocks (some deadline) w = let (now, w') = env.monotonic w in (ltb now deadline, w')

  unfoldable pub submitted : BaselineAttempt → BatchState → BatchState
  submitted a s = record s {
    world = env.submit a s.world;
    queues = popleft a.database s.queues;
    futures = s.futures ++ (a ∷ []);
    active = a.database ∷ s.active;
    started = a.database ∷ s.started;
    maximum_observed = max s.maximum_observed (suc (length s.futures));
  }

  -- The rest of an iteration of the inner loop, from the attempt that is next; `none` is a `break`.
  unfoldable pub launch : Option BaselineAttempt → BatchState → Option BatchState
  unfolding submitted
  launch none s = none
  launch (some a) s =
      if ltb b.cost_ceiling
        (env.plus (env.plus s.spent (reserved s.futures)) (reservation_cost b a))
      then none
      else some (submitted a s)

  abbrev pub unless_broken : BatchState → Option BatchState → (BatchState → BatchState) → BatchState
  unless_broken s none rest = s
  unless_broken s (some s') rest = rest s'

  -- `while len(futures) < maximum_concurrency`, which adds one future in each iteration or breaks:
  -- the fuel is the number of futures that may still be added.
  unfoldable pub admit : Option ℕ → ℕ → BatchState → BatchState
  unfolding launch
  admit deadline zero s = s
  admit deadline (suc slots) s =
      let (allow, w) = allows_new_blocks deadline s.world in
      let s' = record s { world = w } in
      unless_broken s' (launch (next_attempt s'.queues s'.active s'.started allow) s')
        (admit deadline slots)

  unfoldable pub charged : AttemptObservation → ℕ → BatchState → BatchState
  charged o cost s = record s {
    spent = env.plus s.spent cost;
    observations = s.observations ++ (o ∷ []);
    completed = suc s.completed;
  }

  abbrev pub charge :
      AttemptObservation → Result BatchError ℕ → BatchState → Result BatchError BatchState
  charge o (raise e) s = raise e
  charge o (ok cost) s = ok (charged o cost s)

  abbrev pub observe :
      Result BatchError (Option AttemptObservation) → BatchState → Result BatchError BatchState
  observe (raise e) s = raise e
  observe (ok none) s = raise no_artifact
  observe (ok (some o)) s = charge o (hard_budget_cost b o) s

  -- The body of `for future in sorted(done, …)`; the caller has taken the future out of `futures`.
  unfoldable pub finish_attempt : BaselineAttempt → BatchState → Result BatchError BatchState
  unfolding charged
  finish_attempt a s =
      let (fine, w) = env.succeeded a s.world in
      let (found, w') = env.reconcile a w in
      if fine
      then observe found (record s { world = w'; active = remove a.database s.active })
      else raise executor_failed

  abbrev pub and_next :
      Result BatchError BatchState
      → (BatchState → Result BatchError BatchState)
      → Result BatchError BatchState
  and_next (raise e) rest = raise e
  and_next (ok s) rest = rest s

  unfoldable pub complete_all : List BaselineAttempt → BatchState → Result BatchError BatchState
  complete_all [] s = ok s
  complete_all (a ∷ done) s = and_next (finish_attempt a s) (complete_all done)

  -- From `done, _ = wait(…)` to the end of an iteration of the outer loop. All that is done leaves
  -- `futures` at once: nothing in the loop over it reads `futures`.
  unfoldable pub collect : BatchState → Result BatchError BatchState
  collect s =
      let (done, w) = env.wait s.futures s.world in
      complete_all (sort_done (keep done s.futures))
        (record s { world = w; futures = keep (λ a. not (done a)) s.futures })

  -- An iteration of the outer loop whose inner loop leaves something in flight.
  unfoldable pub turn : ℕ → Option ℕ → BatchState → Result BatchError BatchState
  turn maximum_concurrency deadline s =
      collect (admit deadline (maximum_concurrency - length s.futures) s)
