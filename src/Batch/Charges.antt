-- ===== src/Batch/Charges.antt =====
-- baseline_batch.py: what `_hard_budget_cost` charges for an attempt against its reservation.
use omni_benchmark.Batch.{
  BaselineAttempt, BatchBudget, AttemptObservation, Condition, c4, reservation_cost,
  hard_budget_cost, observed_cost_within, c4_cost, cost_under, c1, c2, c3,
}
use omni_benchmark.Prelude.{ℕ, ◌≤◌, ◌≡◌, ◌≢◌, refl, true, false, Option, none, some, arith}
use omni_benchmark.Action.{ok}

-- Only the attempts of the fourth condition may be free of a reservation.
abbrev pub OnlyC4 : BatchBudget → Type 0
OnlyC4 b = (c : Condition) → b.telemetry_only c ≡ true → c ≡ c4

observed_cost_within-bound :
    (b : BatchBudget) (c : Condition) (cost : Option ℕ) (n : ℕ)
    → observed_cost_within b c cost ≡ ok n
    → n ≤ b.attempt_cost_ceiling
unfolding observed_cost_within
observed_cost_within-bound b c none n h = ground (arith, h)
observed_cost_within-bound b c (some cost) n h = ground (arith, h)

uncovered : (b : BatchBudget) → OnlyC4 b → (c : Condition) → c ≢ c4 → b.telemetry_only c ≡ false
uncovered b only c h = ground (arith, only c, h)

c4_cost-bound :
    (b : BatchBudget) (o : AttemptObservation) (n : ℕ)
    → c4_cost b o ≡ ok n
    → n ≤ reservation_cost b o.attempt
unfolding c4_cost reservation_cost
c4_cost-bound b o n h = ground (arith, h, observed_cost_within-bound b o.attempt.condition o.cost n)

open_cost-bound :
    (b : BatchBudget)
    → OnlyC4 b
    → (o : AttemptObservation) (n : ℕ) → o.attempt.condition ≢ c4
    → observed_cost_within b o.attempt.condition o.cost ≡ ok n
    → n ≤ reservation_cost b o.attempt
unfolding reservation_cost
open_cost-bound b only o n k h =
    rw (uncovered b only o.attempt.condition k)
      (observed_cost_within-bound b o.attempt.condition o.cost n h)

cost_under-bound :
    (b : BatchBudget)
    → OnlyC4 b
    → (c : Condition) (o : AttemptObservation) (n : ℕ) → o.attempt.condition ≡ c
    → cost_under c b o ≡ ok n
    → n ≤ reservation_cost b o.attempt
cost_under-bound b only c1 o n e h = open_cost-bound b only o n (λ k. cc) h
cost_under-bound b only c2 o n e h = open_cost-bound b only o n (λ k. cc) h
cost_under-bound b only c3 o n e h = open_cost-bound b only o n (λ k. cc) h
cost_under-bound b only c4 o n e h = c4_cost-bound b o n h

pub reservation_cost-ceiling :
    (b : BatchBudget) (a : BaselineAttempt) → reservation_cost b a ≤ b.attempt_cost_ceiling
unfolding reservation_cost
reservation_cost-ceiling b a = ground arith

cost_under-ceiling :
    (b : BatchBudget) (c : Condition) (o : AttemptObservation) (n : ℕ)
    → cost_under c b o ≡ ok n
    → n ≤ b.attempt_cost_ceiling
cost_under-ceiling b c1 o n h = observed_cost_within-bound b _ _ n h
cost_under-ceiling b c2 o n h = observed_cost_within-bound b _ _ n h
cost_under-ceiling b c3 o n h = observed_cost_within-bound b _ _ n h
cost_under-ceiling b c4 o n h =
    omega (arith, c4_cost-bound b o n h, reservation_cost-ceiling b o.attempt)

pub hard_budget_cost-ceiling :
    (b : BatchBudget) (o : AttemptObservation) (n : ℕ)
    → hard_budget_cost b o ≡ ok n
    → n ≤ b.attempt_cost_ceiling
unfolding hard_budget_cost
hard_budget_cost-ceiling b o n h = cost_under-ceiling b o.attempt.condition o n h

-- If only the fourth condition may be free of a reservation, no attempt is charged more than was reserved
-- for it.
pub hard_budget_cost-bound :
    (b : BatchBudget)
    → OnlyC4 b
    → (o : AttemptObservation) (n : ℕ) → hard_budget_cost b o ≡ ok n
    → n ≤ reservation_cost b o.attempt
unfolding hard_budget_cost
hard_budget_cost-bound b only o n h = cost_under-bound b only o.attempt.condition o n refl h
