-- ===== src/Batch/Run/Ends.antt =====
-- baseline_batch.py: how a batch ends.
use omni_benchmark.Prelude.{
  keep, ℕ, zero, suc, ◌-◌, ◌≤◌, ◌<◌, ◌==◌, ==_iff, ◌≡◌, refl, Bool, true, false, not, ◌&&◌, Option,
  List, [], ◌∷◌, length, is_empty, arith, if◌then◌else◌, ltb, ap, ltb→ge,
}
use omni_benchmark.Action.{Result, ok, raise}
use omni_benchmark.Action.Yields.{Holds, Anything}
use omni_benchmark.Batch.{BatchBudget, BaselineAttempt, BatchError, AttemptObservation}
use omni_benchmark.Batch.Charges.{OnlyC4}
use omni_benchmark.Batch.Queues.{sort_done, remaining}
use omni_benchmark.Batch.Queues.Keyed.{IsKeyed, database_queues-IsKeyed}
use omni_benchmark.Batch.Loop.{Environment, BatchState, admit, collect}
use omni_benchmark.Batch.Loop.Bounds.{
  KeepsAttempts, Charges, IsWithin, admit-IsWithin, complete_all-Charges, collect-IsWithin,
}
use omni_benchmark.Batch.Loop.Money.{IsExact}
use omni_benchmark.Batch.Run.Moves.{left_over, admit-Moves}
use omni_benchmark.Batch.Run.{
  complete, budget_stopped, operational_stopped, BatchOutcome, reported, failed, out_of_fuel, stop,
  and_go_on, after_admission, batch_loop, Reconciled, observed_cost, initial, begin_loop, begin,
  deadline_of, reconcile_schedule, run_baseline_batch,
}

module _ (env : Environment) (b : BatchBudget) where
  -- `wait` returns once one of the futures at least is done.
  abbrev pub WaitsForOne : Type 0
  WaitsForOne =
      (futures : List BaselineAttempt) (w : env.World)
      → 0 < length futures
      → length (keep (λ a. not ((env.wait futures w).0 a)) futures) < length futures

  -- A report leaves nothing in flight and is within the ceiling, and a complete batch has nothing
  -- queued; the fuel does not run out.
  pub EndsWell : BatchOutcome env b → Type 0
  EndsWell (reported s status) =
      (s.spent ≤ b.cost_ceiling)
      × (length s.futures ≡ 0)
      × (status ≡ complete → remaining s.queues ≡ 0)
  EndsWell (failed e) = Unit
  EndsWell out_of_fuel = ⊥

  EndsWell-if :
      (t : Bool) (x y : BatchOutcome env b)
      → (t ≡ true → EndsWell x)
      → (t ≡ false → EndsWell y)
      → EndsWell (if t then x else y)
  EndsWell-if true x y h k = h refl
  EndsWell-if false x y h k = k refl

  and_go_on-EndsWell :
      {P : BatchState env b → Type 0} (r : Result BatchError (BatchState env b))
      (next : BatchState env b → BatchOutcome env b)
      → Holds P Anything r
      → ((t : BatchState env b) → P t → EndsWell (next t))
      → EndsWell (and_go_on env b r next)
  unfolding EndsWell
  and_go_on-EndsWell (raise e) next h k = tt
  and_go_on-EndsWell (ok t) next h k = k t h

  is_empty-length : (xs : List BaselineAttempt) → is_empty xs ≡ true → length xs ≡ 0
  is_empty-length [] h = refl
  is_empty-length (x ∷ xs) h = cc

  length-is_empty : (xs : List BaselineAttempt) → is_empty xs ≡ false → 0 < length xs
  length-is_empty [] h = cc
  length-is_empty (x ∷ xs) h = omega arith

  status_complete :
      (unfinished late fresh : Bool)
      → (if unfinished && late && fresh
          then operational_stopped
          else if unfinished
          then budget_stopped
          else complete)
        ≡ complete
      → unfinished ≡ false
  status_complete true true true h = cc
  status_complete true true false h = cc
  status_complete true false fresh h = cc
  status_complete false late fresh h = refl

  and_true : (s t : Bool) → (s && t) ≡ true → (s ≡ true) × (t ≡ true)
  and_true s t h = ground arith

  module _ (exact : IsExact env b.cost_ceiling) (only : OnlyC4 b) (same : KeepsAttempts env b)
      (live : WaitsForOne) (maximum : ℕ) (deadline : Option ℕ) where
    -- An iteration keeps the bounds and completes an attempt.
    Progress : ℕ → BatchState env b → Type 0
    Progress n t = IsWithin env b maximum t × IsKeyed t.queues × (left_over env b t < n)

    Progress-of :
        (n charge : ℕ) (s : BatchState env b) (r : Result BatchError (BatchState env b))
        → Holds (IsWithin env b maximum) Anything r
        → Charges env b charge s r
        → IsKeyed s.queues
        → left_over env b s < n
        → Holds (Progress n) Anything r
    unfolding Progress
    Progress-of n charge s (raise e) h c k l = tt
    Progress-of n charge s (ok t) h c k l =
        (h, rw c.2 k, omega (arith, l, ap remaining c.2, ap length c.1))

    collect-Progress :
        (s : BatchState env b)
        → IsWithin env b maximum s
        → IsKeyed s.queues
        → 0 < length s.futures
        → Holds (Progress (left_over env b s)) Anything (collect env b s)
    unfolding collect
    collect-Progress s h k l =
        let (done, w) = env.wait s.futures s.world in
        let left = keep (λ a. not (done a)) s.futures in
        Progress-of _ _ (record s { world = w; futures = left }) _
          (collect-IsWithin env b exact only same maximum s h)
          (complete_all-Charges env b exact only same (sort_done (keep done s.futures)) _) k
          (omega (arith, live s.futures s.world l))

    stop-EndsWell :
        (s : BatchState env b)
        → IsWithin env b maximum s
        → is_empty s.futures ≡ true
        → EndsWell (stop env b deadline s)
    unfolding stop EndsWell
    stop-EndsWell s h e = (
      omega (arith, h.budget),
      is_empty-length s.futures e,
      λ c. omega (arith, ltb→ge 0 (remaining s.queues) (status_complete _ _ _ c)),
    )

    batch_loop-EndsWell :
        (fuel : ℕ) (s : BatchState env b)
        → IsWithin env b maximum s
        → IsKeyed s.queues
        → left_over env b s < fuel
        → EndsWell (batch_loop env b maximum deadline fuel s)
    unfolding batch_loop after_admission EndsWell Progress
    batch_loop-EndsWell zero s h k l = absurd (omega arith)
    batch_loop-EndsWell (suc fuel) s h k l =
        EndsWell-if _ _ _
          (λ e.
            let both = and_true (remaining s.queues == 0) (is_empty s.futures) e in
            (
              omega (arith, h.budget),
              is_empty-length s.futures both.1,
              λ _. (==_iff (remaining s.queues) 0).0 both.0,
            ))
          (λ e.
            let slots = maximum - length s.futures in
            let s' = admit env b deadline slots s in
            let flying =
              admit-IsWithin env b exact maximum deadline slots s (omega (arith, h.concurrent)) h in
            let moved = admit-Moves env b deadline slots s k in
            EndsWell-if (is_empty s'.futures) _ _ (stop-EndsWell s' flying) (λ e'.
              and_go_on-EndsWell (collect env b s') (batch_loop env b maximum deadline fuel)
                (collect-Progress s' flying moved.0 (length-is_empty s'.futures e'))
                (λ t p. batch_loop-EndsWell fuel t p.0 p.1 (omega (arith, p.2, moved.1, l)))))

  -- What the attempts that were reconciled before the run have cost is within the ceiling.
  abbrev pub StartsWithin : Result BatchError (Reconciled env b) → Type 0
  StartsWithin reconciled =
      (observations : List AttemptObservation) (pending : List BaselineAttempt) (spent : ℕ)
      → reconciled ≡ ok (observations, pending)
      → observed_cost env b observations ≡ ok spent
      → spent ≤ b.cost_ceiling

  module _ (exact : IsExact env b.cost_ceiling) (only : OnlyC4 b) (same : KeepsAttempts env b)
      (live : WaitsForOne) (maximum : ℕ) where
    begin_loop-EndsWell :
        (deadline : Option ℕ) (observations : List AttemptObservation)
        (pending : List BaselineAttempt) (cost : Result BatchError ℕ) (w : env.World)
        → ((spent : ℕ) → cost ≡ ok spent → spent ≤ b.cost_ceiling)
        → EndsWell (begin_loop env b maximum deadline observations pending cost w)
    unfolding begin_loop initial EndsWell
    begin_loop-EndsWell deadline observations pending (raise e) w h = tt
    begin_loop-EndsWell deadline observations pending (ok spent) w h =
        batch_loop-EndsWell exact only same live maximum deadline _
          (initial env b observations pending spent w)
          (record { budget = omega (arith, h spent refl); concurrent = omega arith })
          (database_queues-IsKeyed pending) (omega arith)

    begin-EndsWell :
        (policy : Option ℕ) (reconciled : Result BatchError (Reconciled env b)) (w : env.World)
        → StartsWithin reconciled
        → EndsWell (begin env b maximum policy reconciled w)
    unfolding begin EndsWell
    begin-EndsWell policy (raise e) w h = tt
    begin-EndsWell policy (ok (observations, pending)) w h =
        let (now, w') = env.monotonic w in
        begin_loop-EndsWell (deadline_of env b policy now) observations pending _ w'
          (λ spent e. h observations pending spent refl e)

    -- If sums of money are exact up to the ceiling, only the fourth condition may be free of a reservation, the repository finds observations of the
    -- attempts that it is asked for, `wait` returns with a future that is done, and the attempts
    -- reconciled before the run have cost no more than the ceiling, then a batch ends with an error
    -- or with a report; the report has nothing in flight and no more spent than the ceiling, and a
    -- complete one has nothing queued.
    pub run_baseline_batch-EndsWell :
        (attempts : List BaselineAttempt) (policy : Option ℕ) (w : env.World)
        → StartsWithin (reconcile_schedule env b attempts w).0
        → EndsWell (run_baseline_batch env b attempts maximum policy w)
    unfolding run_baseline_batch EndsWell
    run_baseline_batch-EndsWell attempts policy w h =
        EndsWell-if (ltb maximum 1) _ _ (λ e. tt) (λ e. begin-EndsWell policy _ _ h)
