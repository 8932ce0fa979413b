-- ===== src/Examples/Fleet.antt =====
-- A batch of three attempts on two databases, each of which costs three units.
use omni_benchmark.Prelude.{
  ◌+◌, total, keep, ◌≡◌, length, ltb, List, if◌then◌else◌, ℕ, suc, true, false, none, some, ◌≤◌,
  refl, String, arith, [], ◌∷◌,
}
use omni_benchmark.Batch.{
  hard_budget_cost, BaselineAttempt, BatchBudget, AttemptObservation, c1, reservation_cost,
}
use omni_benchmark.Action.{ok}
use omni_benchmark.Action.Yields.{Holds, Anything}
use omni_benchmark.Batch.Charges.{OnlyC4, hard_budget_cost-bound}
use omni_benchmark.Batch.Loop.{Environment, BatchState, admit, turn}
use omni_benchmark.Batch.Run.{run_baseline_batch, reconcile_schedule, observed_cost}
use omni_benchmark.Batch.Run.Ends.{WaitsForOne, StartsWithin, EndsWell, run_baseline_batch-EndsWell}
use omni_benchmark.Batch.Loop.Money.{IsExact}
use omni_benchmark.Batch.Loop.Bounds.{IsWithin, KeepsAttempts, turn-IsWithin}

abbrev pub asked : String → String → BaselineAttempt
asked database question = record {
  condition = c1;
  database = database;
  instance_id = question;
  run_id = "r";
}

abbrev pub seen : BaselineAttempt → AttemptObservation
seen a = record {
  attempt = a;
  cost = some 3;
  cost_reservation = some 5;
  budget_policy_sha256 = some "policy";
  cost_unavailable_reason = none;
}

abbrev pub prompt : Environment
prompt = record {
  World = ℕ;
  plus = λ m n. m + n;
  sum = λ amounts. total (λ n. n) amounts;
  monotonic = λ w. (w, suc w);
  submit = λ a w. suc w;
  wait = λ futures w. ((λ a. true), suc w);
  succeeded = λ a w. (true, suc w);
  reconcile = λ a w. (if ltb w 3 then ok none else ok (some (seen a)), suc w);
}

abbrev pub ten : BatchBudget
ten = record {
  sha256 = "policy";
  cost_ceiling = 10;
  attempt_cost_ceiling = 5;
  unobservable_cost_reservation = λ c. false;
  telemetry_only = λ c. false;
}

abbrev pub at_start : BatchState prompt ten
at_start = record {
  world = 3;
  queues =
      ("museum", asked "museum" "q1" ∷ asked "museum" "q2" ∷ [])
      ∷ ("library", asked "library" "q3" ∷ [])
      ∷ [];
  active = [];
  started = [];
  futures = [];
  spent = 0;
  observations = [];
  completed = 0;
  maximum_observed = 0;
}

pub prompt-IsExact : (ceiling : ℕ) → IsExact prompt ceiling
prompt-IsExact ceiling = record {
  plus_exact = λ m n h. refl;
  plus_above = λ m n h. h;
  sum_exact = λ amounts h. refl;
  sum_above = λ amounts h. h;
}

ten-OnlyC4 : OnlyC4 ten
ten-OnlyC4 c h = cc

pub prompt-KeepsAttempts : KeepsAttempts prompt ten
prompt-KeepsAttempts a w w' o h = ground (arith, h)

at_start-IsWithin : IsWithin prompt ten 2 at_start
at_start-IsWithin = record { budget = omega arith; concurrent = omega arith }

hard_budget_cost-bound_example : 3 ≤ reservation_cost ten (asked "museum" "q1")
unfolding hard_budget_cost
hard_budget_cost-bound_example =
    hard_budget_cost-bound ten ten-OnlyC4 (seen (asked "museum" "q1")) 3 refl

turn-IsWithin_example :
    IsWithin prompt ten 2 (admit prompt ten (some 100) 2 at_start)
    × Holds (IsWithin prompt ten 2) Anything (turn prompt ten 2 (some 100) at_start)
turn-IsWithin_example =
    turn-IsWithin prompt ten (prompt-IsExact 10) ten-OnlyC4 prompt-KeepsAttempts 2 (some 100)
      at_start at_start-IsWithin

all_done : (xs : List BaselineAttempt) → length (keep (λ a. false) xs) ≡ 0
all_done [] = refl
all_done (a ∷ xs) = all_done xs

pub prompt-WaitsForOne : WaitsForOne prompt ten
prompt-WaitsForOne [] w h = h
prompt-WaitsForOne (a ∷ futures) w h = omega (arith, all_done futures)

abbrev pub three : List BaselineAttempt
three = asked "museum" "q1" ∷ asked "museum" "q2" ∷ asked "library" "q3" ∷ []

three-StartsWithin : StartsWithin prompt ten (reconcile_schedule prompt ten three 0).0
unfolding observed_cost reconcile_schedule hard_budget_cost
three-StartsWithin observations pending spent e h = ground (arith, e, h)

run_baseline_batch-EndsWell_example :
    EndsWell prompt ten (run_baseline_batch prompt ten three 2 (some 100) 0)
run_baseline_batch-EndsWell_example =
    run_baseline_batch-EndsWell prompt ten (prompt-IsExact 10) ten-OnlyC4 prompt-KeepsAttempts
      prompt-WaitsForOne 2 three (some 100) 0 three-StartsWithin
