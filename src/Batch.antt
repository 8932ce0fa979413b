-- ===== src/Batch.antt =====
-- src/omni_benchmark/baseline_batch.py: the budget of a batch of attempts and the loop that runs
-- them. An amount of dollars is a number of units of money; a set of conditions is its test.
pub mod Queues
pub mod Charges
pub mod Run
pub mod Loop
use Prim.Native.String.{◌++◌ as append}
use text.Mathlib.Text.{◌==◌ as str_eq}
use omni_benchmark.Prelude.{
  ℕ, zero, suc, ◌+◌, ◌≤◌, ◌<◌, ◌≡◌, String, Bool, true, false, not, ◌&&◌, ◌||◌, Option, none, some,
  List, [], ◌∷◌, ltb, ◌==◌, if◌then◌else◌, any,
}
use omni_benchmark.Action.{Result, ok, raise}

pub data Condition : Type 0 where
  c1 c2 c3 c4 : Condition

pub record BaselineAttempt : Type 0 where
  pub condition : Condition
  pub database : String
  pub instance_id : String
  pub run_id : String

abbrev condition_name : Condition → String
condition_name c1 = "C1"
condition_name c2 = "C2"
condition_name c3 = "C3"
condition_name c4 = "C4"

-- `attempt_id`: the repetition of an attempt is one.
pub attempt_id : BaselineAttempt → String
attempt_id a =
    append a.run_id
      (append ":" (append a.instance_id (append ":" (append (condition_name a.condition) ":1"))))

pub record BatchBudget : Type 0 where
  pub sha256 : String
  pub cost_ceiling : ℕ
  pub attempt_cost_ceiling : ℕ
  pub unobservable_cost_reservation : Condition → Bool
  pub telemetry_only : Condition → Bool

pub record AttemptObservation : Type 0 where
  pub attempt : BaselineAttempt
  pub cost : Option ℕ
  pub cost_reservation : Option ℕ
  pub budget_policy_sha256 : Option String
  pub cost_unavailable_reason : Option String

pub data BatchError : Type 0 where
  policy_changed reservation_changed reason_not_preserved cost_unobservable : BatchError
  cost_over_reservation executor_failed no_artifact reconcile_failed : BatchError
  identity_changed invalid_concurrency : BatchError

-- `_reservation_cost`
unfoldable pub reservation_cost : BatchBudget → BaselineAttempt → ℕ
reservation_cost b a = if b.telemetry_only a.condition then 0 else b.attempt_cost_ceiling

abbrev is_text : Option String → String → Bool
is_text none t = false
is_text (some s) t = str_eq s t

abbrev is_amount : Option ℕ → ℕ → Bool
is_amount none n = false
is_amount (some m) n = m == n

abbrev is_some {ℓ} : {A : Type ℓ} → Option A → Bool
is_some none = false
is_some (some a) = true

-- `reason in _C4_COST_UNAVAILABLE_REASONS`
abbrev is_preserved : Option String → Bool
is_preserved reason = any (is_text reason) (
    "omni_job_api_does_not_expose_cost" ∷ "credit_usage_nonmonotonic"
    ∷ "credit_usage_period_rollover" ∷ "credit_usage_read_failed" ∷ [])

-- The end of `_hard_budget_cost`, from `cost = observation.cost_usd`.
pub observed_cost_within : BatchBudget → Condition → Option ℕ → Result BatchError ℕ
observed_cost_within b c none =
    if b.unobservable_cost_reservation c then ok b.attempt_cost_ceiling else raise cost_unobservable
observed_cost_within b c (some cost) =
    if ltb b.attempt_cost_ceiling cost then raise cost_over_reservation else ok cost

-- The block of `_hard_budget_cost` for an observation of the fourth condition.
pub c4_cost : BatchBudget → AttemptObservation → Result BatchError ℕ
unfolding observed_cost_within
c4_cost b o =
    if not (is_text o.budget_policy_sha256 b.sha256)
    then raise policy_changed
    else if not (is_amount o.cost_reservation (reservation_cost b o.attempt))
    then raise reservation_changed
    else if not (is_some o.cost) && not (is_preserved o.cost_unavailable_reason)
    then raise reason_not_preserved
    else if b.telemetry_only o.attempt.condition
    then ok (reservation_cost b o.attempt)
    else observed_cost_within b o.attempt.condition o.cost

abbrev pub cost_under : Condition → BatchBudget → AttemptObservation → Result BatchError ℕ
cost_under c4 b o = c4_cost b o
cost_under c b o = observed_cost_within b o.attempt.condition o.cost

-- `_hard_budget_cost`
unfoldable pub hard_budget_cost : BatchBudget → AttemptObservation → Result BatchError ℕ
unfolding c4_cost observed_cost_within
hard_budget_cost b o = cost_under o.attempt.condition b o
