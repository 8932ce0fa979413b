-- ===== src/Examples/Pairings.antt =====
-- Four questions of two databases, where a digest is the text itself.
use omni_benchmark.Prelude.{◌*◌, ◌≡◌, refl, [], ◌∷◌, concat_map, All, ◌≤◌, arith, String}
use omni_benchmark.Action.{ok}
use omni_benchmark.Schedule.{is_distinct}
use omni_benchmark.Schedule.Checked.{is_distinct-once}
use omni_benchmark.Examples.Schedules.{plain}
use omni_benchmark.Pairs.{
  Building, Hashing, control, treatment, ByDatabase, first_condition_assignments,
}
use omni_benchmark.Pairs.Extras.{IsKeyedOnce}
use omni_benchmark.Pairs.Rounds.{with_conditions}
use omni_benchmark.Pairs.Complete.{question_occurrences, IsComplete, with_conditions-IsComplete}
use omni_benchmark.Pairs.Build.{build_pairs}
use omni_benchmark.Pairs.Asserted.{Outcome, build_pairs-Outcome}
use omni_benchmark.Pairs.Balanced.{
  question_count, starts, arms_of, IsBalanced, first_condition_assignments-IsBalanced,
}

abbrev unhashed : Hashing
unhashed = record { sha256 = λ s. s; frame = λ s. s; digits = λ n. "0"; seed = "seed" }

abbrev two_databases : ByDatabase
two_databases = ("a", "x" ∷ []) ∷ ("b", "y" ∷ "z" ∷ "w" ∷ []) ∷ []

two_databases-IsKeyedOnce : IsKeyedOnce two_databases
unfolding is_distinct
two_databases-IsKeyedOnce = is_distinct-once plain ("a" ∷ "b" ∷ []) refl

first_condition_assignments-IsBalanced_example :
    (first_condition_assignments unhashed two_databases
      ≡ ok (concat_map (arms_of unhashed two_databases two_databases-IsKeyedOnce) two_databases))
    × (starts control
            (concat_map (arms_of unhashed two_databases two_databases-IsKeyedOnce) two_databases)
          * 2
        ≡ 4)
    × (starts treatment
            (concat_map (arms_of unhashed two_databases two_databases-IsKeyedOnce) two_databases)
          * 2
        ≡ 4)
    × All (IsBalanced unhashed two_databases two_databases-IsKeyedOnce) two_databases
first_condition_assignments-IsBalanced_example =
    first_condition_assignments-IsBalanced unhashed two_databases two_databases-IsKeyedOnce refl

two_databases-once : (s : String) → question_occurrences s two_databases ≤ 1
unfolding is_distinct
two_databases-once s = omega (arith, is_distinct-once plain ("x" ∷ "y" ∷ "z" ∷ "w" ∷ []) refl s)

with_conditions-IsComplete_example :
    (t : Building) × (with_conditions unhashed two_databases
        (first_condition_assignments unhashed two_databases)
      ≡ ok t)
    × IsComplete unhashed two_databases two_databases-IsKeyedOnce two_databases-once t
with_conditions-IsComplete_example =
    with_conditions-IsComplete unhashed two_databases two_databases-IsKeyedOnce two_databases-once
      refl

build_pairs-Outcome_example :
    Outcome unhashed two_databases two_databases-IsKeyedOnce two_databases-once
      (build_pairs unhashed two_databases (question_count two_databases))
build_pairs-Outcome_example =
    build_pairs-Outcome unhashed two_databases two_databases-IsKeyedOnce two_databases-once refl
      (refl, (refl, tt))
