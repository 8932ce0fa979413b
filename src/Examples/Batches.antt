-- ===== src/Examples/Batches.antt =====
-- The batch of three attempts under a ceiling that pays for all of them.
use omni_benchmark.Prelude.{◌≤◌, ℕ, refl, true, some, [], arith}
use omni_benchmark.Batch.{BatchBudget, reservation_cost}
use omni_benchmark.Batch.Queues.{next_attempt, first_head, database_queues, enqueue, enqueue_all}
use omni_benchmark.Batch.Loop.{BatchState, submitted, reserved}
use omni_benchmark.Batch.Run.{initial, run_baseline_batch}
use omni_benchmark.Batch.Run.Reached.{Reached, launched, begun, IsSound, Reached-IsSound}
use omni_benchmark.Batch.Run.Accounts.{Accounts, initial-IsSound, run_baseline_batch-Accounts}
use omni_benchmark.Batch.Loop.Bounds.{KeepsAttempts}
use omni_benchmark.Batch.Run.Completes.{Completes}
use omni_benchmark.Examples.Fleet.{prompt-KeepsAttempts, asked, prompt, ten, three}

abbrev twenty : BatchBudget
twenty = record ten { cost_ceiling = 20 }

twenty-KeepsAttempts : KeepsAttempts prompt twenty
twenty-KeepsAttempts a w w' o h = prompt-KeepsAttempts a w w' o h

abbrev first_state : BatchState prompt twenty
first_state = initial prompt twenty [] three 0 3

first_launch :
    Reached prompt twenty first_state [] (submitted prompt twenty (asked "museum" "q1") first_state)
unfolding initial next_attempt first_head database_queues enqueue enqueue_all reserved
    reservation_cost
first_launch = launched first_state true (asked "museum" "q1") refl (omega arith) begun

Reached-IsSound_example :
    IsSound prompt twenty three [] (submitted prompt twenty (asked "museum" "q1") first_state)
Reached-IsSound_example =
    Reached-IsSound prompt twenty three twenty-KeepsAttempts first_state
      (submitted prompt twenty (asked "museum" "q1") first_state) []
      (initial-IsSound prompt twenty [] three 0 three 3 (λ f. omega arith)) first_launch

run_baseline_batch-Accounts_example :
    Accounts prompt twenty three (run_baseline_batch prompt twenty three 2 (some 1) 0)
run_baseline_batch-Accounts_example =
    run_baseline_batch-Accounts prompt twenty twenty-KeepsAttempts three 2 (some 1) 0

abbrev Late : ℕ → Type 0
Late w = 3 ≤ w
