-- ===== src/Batch/Loop/Bounds.antt =====
-- baseline_batch.py: what is spent and reserved stays under the ceiling, and what is in flight under
-- the maximum concurrency.
use omni_benchmark.Prelude.{
  length-keep, total-sort_by, total-keep, total-append, ℕ, zero, suc, ◌+◌, ◌-◌, ◌≤◌, ◌<◌, ◌≡◌, refl,
  Bool, true, false, not, total, total-map, map, Option, none, some, List, [], ◌∷◌, length,
  length-append, ap, ◌∙◌, arith, if◌then◌else◌, ltb→ge,
}
use omni_benchmark.Batch.Loop.{
  keep, Environment, BatchState, allows_new_blocks, unless_broken, observe, charge, charged,
  and_next, reserved, admit, launch, submitted, finish_attempt, complete_all, collect, turn,
}
use omni_benchmark.Action.{Result, ok, raise}
use omni_benchmark.Action.Yields.{Holds, Anything}
use omni_benchmark.Batch.{
  BatchBudget, BaselineAttempt, AttemptObservation, BatchError, executor_failed, reservation_cost,
  hard_budget_cost,
}
use omni_benchmark.Batch.Queues.{precedes, sort_done, next_attempt}
use omni_benchmark.Batch.Charges.{OnlyC4, hard_budget_cost-bound}
use omni_benchmark.Batch.Loop.Money.{IsExact, all_under}

module _ (env : Environment) (b : BatchBudget) where
  -- The observation that the repository finds for an attempt is about that attempt.
  abbrev pub KeepsAttempts : Type 0
  KeepsAttempts =
      (a : BaselineAttempt) (w w' : env.World) (o : AttemptObservation)
      → env.reconcile a w ≡ (ok (some o), w')
      → o.attempt ≡ a

  -- Ends with an error, or charges at most `n` and leaves what is in flight and what is queued alone.
  abbrev pub Charges : ℕ → BatchState env b → Result BatchError (BatchState env b) → Type 0
  Charges n s (raise e) = Unit
  Charges n s (ok t) =
      (s.spent + n ≤ b.cost_ceiling → t.spent ≤ s.spent + n)
      × (t.futures ≡ s.futures)
      × (t.queues ≡ s.queues)

  -- The money that is spent and reserved, and the attempts in flight.
  pub record IsWithin (maximum : ℕ) (s : BatchState env b) : Type 0 where
    pub budget : s.spent + total (reservation_cost b) s.futures ≤ b.cost_ceiling
    pub concurrent : length s.futures ≤ maximum

  -- `launch` breaks, or adds one future that the budget can pay.
  Launches : ℕ → BatchState env b → Option (BatchState env b) → Type 0
  Launches maximum s none = Unit
  Launches maximum s (some s') = IsWithin maximum s' × (length s'.futures ≡ suc (length s.futures))

  Launches-if :
      (maximum : ℕ) (s s' : BatchState env b) (t : Bool)
      → (t ≡ false → Launches maximum s (some s'))
      → Launches maximum s (if t then none else some s')
  unfolding Launches
  Launches-if maximum s s' true h = tt
  Launches-if maximum s s' false h = h refl

  launch-Launches :
      IsExact env b.cost_ceiling
      → (maximum : ℕ) (o : Option BaselineAttempt) (s : BatchState env b)
      → length s.futures < maximum
      → Launches maximum s (launch env b o s)
  unfolding launch submitted Launches reserved
  launch-Launches exact maximum none s h = tt
  launch-Launches exact maximum (some a) s h = Launches-if maximum s _ _ (λ e. (
    record {
      budget = omega (
        arith,
        total-append (reservation_cost b) s.futures (a ∷ []),
        all_under env b.cost_ceiling exact s.spent (reservation_cost b a)
            (map (reservation_cost b) s.futures) (ltb→ge _ _ e),
        total-map (λ n. n) (reservation_cost b) s.futures,
      );
      concurrent = omega (arith, length-append s.futures (a ∷ []));
    },
    omega (arith, length-append s.futures (a ∷ [])),
  ))

  unless_broken-IsWithin :
      (maximum : ℕ) (s : BatchState env b) (o : Option (BatchState env b))
      (rest : BatchState env b → BatchState env b)
      → Launches maximum s o
      → IsWithin maximum s
      → ((t : BatchState env b)
          → length t.futures ≡ suc (length s.futures)
          → IsWithin maximum t
          → IsWithin maximum (rest t))
      → IsWithin maximum (unless_broken env b s o rest)
  unfolding Launches
  unless_broken-IsWithin maximum s none rest h k next = k
  unless_broken-IsWithin maximum s (some t) rest h k next = next t h.1 h.0

  pub admit-IsWithin :
      IsExact env b.cost_ceiling
      → (maximum : ℕ) (deadline : Option ℕ) (slots : ℕ) (s : BatchState env b)
      → slots + length s.futures ≤ maximum
      → IsWithin maximum s
      → IsWithin maximum (admit env b deadline slots s)
  unfolding admit
  admit-IsWithin exact maximum deadline zero s h k = k
  admit-IsWithin exact maximum deadline (suc slots) s h k =
      let (allow, w) = allows_new_blocks env b deadline s.world in
      let s' = record s { world = w } in
      let within : IsWithin maximum s' = record { budget = k.budget; concurrent = k.concurrent } in
      let next = next_attempt s.queues s.active s.started allow in
      unless_broken-IsWithin maximum s' (launch env b next s') (admit env b deadline slots)
        (launch-Launches exact maximum next s' (omega arith)) within
        (λ t e l. admit-IsWithin exact maximum deadline slots t (omega arith) l)

  module _ (exact : IsExact env b.cost_ceiling) (only : OnlyC4 b) (same : KeepsAttempts) where
    charge-Charges :
        (a : BaselineAttempt) (o : AttemptObservation) (r : Result BatchError ℕ)
        (s : BatchState env b)
        → hard_budget_cost b o ≡ r
        → o.attempt ≡ a
        → Charges (reservation_cost b a) s (charge env b o r s)
    unfolding charged
    charge-Charges a o (raise e) s h k = tt
    charge-Charges a o (ok n) s h k =
        let bound : n ≤ reservation_cost b a =
          omega (arith, hard_budget_cost-bound b only o n h, ap (reservation_cost b) k) in
        (
          (λ within.
              omega
                (arith, bound, within, exact.plus_exact s.spent n (omega (arith, bound, within)))),
          refl,
          refl,
        )

    observe-Charges :
        (a : BaselineAttempt) (found : Result BatchError (Option AttemptObservation))
        (s : BatchState env b)
        → ((o : AttemptObservation) → found ≡ ok (some o) → o.attempt ≡ a)
        → Charges (reservation_cost b a) s (observe env b found s)
    observe-Charges a (raise e) s h = tt
    observe-Charges a (ok none) s h = tt
    observe-Charges a (ok (some o)) s h = charge-Charges a o _ s refl (h o refl)

    Charges-if :
        (n : ℕ) (s : BatchState env b) (t : Bool) (r : Result BatchError (BatchState env b))
        (e : BatchError)
        → Charges n s r
        → Charges n s (if t then r else raise e)
    Charges-if n s true r e h = h
    Charges-if n s false r e h = tt

    finish_attempt-Charges :
        (a : BaselineAttempt) (s : BatchState env b)
        → Charges (reservation_cost b a) s (finish_attempt env b a s)
    unfolding finish_attempt
    finish_attempt-Charges a s =
        let (fine, w) = env.succeeded a s.world in
        let (found, w') = env.reconcile a w in
        Charges-if _ s fine _ executor_failed
          (observe-Charges a found _ (λ o e. same a w w' o (ap (λ x. (x, w')) e)))

    Charges-trans :
        (n m : ℕ) (s t : BatchState env b) (r : Result BatchError (BatchState env b))
        → Charges n s (ok t)
        → Charges m t r
        → Charges (n + m) s r
    Charges-trans n m s t (raise e) h k = tt
    Charges-trans n m s t (ok u) h k = (
      (λ within. omega (
        arith,
        h.0 (omega (arith, within)),
        k.0 (omega (arith, within, h.0 (omega (arith, within)))),
      )),
      k.1 ∙ h.1,
      k.2 ∙ h.2,
    )

    and_next-Charges :
        (n m : ℕ) (s : BatchState env b) (r : Result BatchError (BatchState env b))
        (rest : BatchState env b → Result BatchError (BatchState env b))
        → Charges n s r
        → ((t : BatchState env b) → Charges m t (rest t))
        → Charges (n + m) s (and_next env b r rest)
    and_next-Charges n m s (raise e) rest h k = tt
    and_next-Charges n m s (ok t) rest h k = Charges-trans n m s t (rest t) h (k t)

    pub complete_all-Charges :
        (done : List BaselineAttempt) (s : BatchState env b)
        → Charges (total (reservation_cost b) done) s (complete_all env b done s)
    unfolding complete_all
    complete_all-Charges [] s = ((λ within. omega arith), refl, refl)
    complete_all-Charges (a ∷ done) s =
        and_next-Charges _ _ s (finish_attempt env b a s) _ (finish_attempt-Charges a s)
          (complete_all-Charges done)

    Charges-IsWithin :
        (maximum n : ℕ) (s : BatchState env b) (r : Result BatchError (BatchState env b))
        → s.spent + n + total (reservation_cost b) s.futures ≤ b.cost_ceiling
        → length s.futures ≤ maximum
        → Charges n s r
        → Holds (IsWithin maximum) Anything r
    Charges-IsWithin maximum n s (raise e) h k c = tt
    Charges-IsWithin maximum n s (ok t) h k c = record {
      budget = omega (arith, h, c.0 (omega (arith, h)), ap (total (reservation_cost b)) c.1);
      concurrent = omega (arith, k, ap length c.1);
    }

    pub collect-IsWithin :
        (maximum : ℕ) (s : BatchState env b)
        → IsWithin maximum s
        → Holds (IsWithin maximum) Anything (collect env b s)
    unfolding collect sort_done
    collect-IsWithin maximum s h =
        let (done, w) = env.wait s.futures s.world in
        let finished = keep done s.futures in
        let left = keep (λ a. not (done a)) s.futures in
        Charges-IsWithin maximum _ (record s { world = w; futures = left }) _
          (omega (
            arith,
            h.budget,
            total-keep (reservation_cost b) done s.futures,
            total-sort_by (reservation_cost b) precedes finished,
          ))
          (omega (arith, h.concurrent, length-keep (λ a. not (done a)) s.futures))
          (complete_all-Charges (sort_done finished) _)

    -- If sums of money are exact up to the ceiling, only the fourth condition may be free of a reservation, and the repository finds observations of
    -- the attempts that it is asked for, an iteration of the outer loop that begins with what is spent
    -- and reserved under the ceiling, and no more futures than the maximum concurrency, has both in
    -- flight, and ends with both or with an error.
    pub turn-IsWithin :
        (maximum : ℕ) (deadline : Option ℕ) (s : BatchState env b)
        → IsWithin maximum s
        → IsWithin maximum (admit env b deadline (maximum - length s.futures) s)
          × Holds (IsWithin maximum) Anything (turn env b maximum deadline s)
    unfolding turn
    turn-IsWithin maximum deadline s h =
        let flying =
          admit-IsWithin exact maximum deadline (maximum - length s.futures) s
            (omega (arith, h.concurrent)) h in
        (flying, collect-IsWithin maximum _ flying)
