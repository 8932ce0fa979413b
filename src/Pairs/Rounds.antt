-- ===== src/Pairs/Rounds.antt =====
-- r2_paired_schedule.py: the loops of `build_r2_paired_schedule` over the rounds and the databases.
use Prim.Native.Nat.{max}
use omni_benchmark.Prelude.Text.{text_le}
use omni_benchmark.Prelude.{
  ℕ, ◌+◌, ◌-◌, String, Option, none, some, List, [], ◌∷◌, ◌++◌, map, length, get_elem?, count_up,
  sort_by,
}
use omni_benchmark.Action.{Result, ok, raise}
use omni_benchmark.Pairs.{
  Hashing, Arm, condition_text, other_condition, PairError, Pair, PairAttempt, Building, ByDatabase,
  value_of, pair_key, stable_id, ordered_by, condition_missing,
}

module _ (k : Hashing) where
  -- The attempt that the innermost loop appends.
  unfoldable pub attempt_of : Pair → ℕ → ℕ → Arm → PairAttempt
  unfolding stable_id
  attempt_of p attempt_position within condition = record {
    attempt_id =
        stable_id k "r2attempt" (p.pair_id ∷ condition_text condition ∷ k.digits within ∷ []);
    attempt_position = attempt_position;
    condition = condition;
    database = p.database;
    instance_id = p.instance_id;
    pair_id = p.pair_id;
    pair_position = p.pair_position;
    within_pair_position = within;
  }

  unfoldable pub pair_of : String → ℕ → String → Arm → ℕ → Pair
  unfolding stable_id
  pair_of database database_round instance_id first pair_position = record {
    database = database;
    database_round = database_round;
    first_condition = first;
    instance_id = instance_id;
    pair_id = stable_id k "r2pair" (database ∷ instance_id ∷ k.digits pair_position ∷ []);
    pair_position = pair_position;
    second_condition = other_condition first;
  }

  -- The body of the inner loop from `pair_position += 1`
  unfoldable pub add_pair : String → ℕ → String → Arm → Building → Building
  unfolding attempt_of pair_of
  add_pair database database_round instance_id first s =
      let p = pair_of database database_round instance_id first (length s.pairs + 1) in
      let n = length s.attempts in
      record {
        pairs = s.pairs ++ (p ∷ []);
        attempts =
            s.attempts
            ++ (attempt_of p (n + 1) 1 p.first_condition
                ∷ attempt_of p (n + 2) 2 p.second_condition
                ∷ []);
      }

  abbrev pub and_add : String → ℕ → String → Option Arm → Building → Result PairError Building
  and_add database database_round instance_id none s = raise condition_missing
  and_add database database_round instance_id (some first) s =
      ok (add_pair database database_round instance_id first s)

  -- The body of the inner loop; `none` is a round after the last question, a `continue`.
  abbrev pub visit :
      List (String × Arm) → ℕ → String → Option String → Building → Result PairError Building
  visit first_conditions database_round database none s = ok s
  visit first_conditions database_round database (some instance_id) s =
      and_add database database_round instance_id (value_of instance_id first_conditions) s

  abbrev pub and_visit :
      Result PairError Building → (Building → Result PairError Building) → Result PairError Building
  and_visit (raise e) next = raise e
  and_visit (ok s) next = next s

  -- `for database in database_order`, in one round
  unfoldable pub visit_databases :
      List (String × Arm) → ℕ → ByDatabase → Building → Result PairError Building
  unfolding add_pair
  visit_databases first_conditions database_round [] s = ok s
  visit_databases first_conditions database_round ((database, ordered_ids) ∷ rest) s =
      and_visit
        (visit first_conditions database_round database (get_elem? ordered_ids (database_round - 1))
          s)
        (visit_databases first_conditions database_round rest)

  unfoldable pub visit_rounds :
      List (String × Arm) → ByDatabase → List ℕ → Building → Result PairError Building
  unfolding visit_databases
  visit_rounds first_conditions question_order [] s = ok s
  visit_rounds first_conditions question_order (database_round ∷ rounds) s =
      and_visit (visit_databases first_conditions database_round question_order s)
        (visit_rounds first_conditions question_order rounds)

  -- `question_order`, in the order of `database_order`
  unfoldable pub ordered_groups : ByDatabase → ByDatabase
  unfolding pair_key
  ordered_groups groups =
      sort_by (λ g h. text_le (pair_key k "database" (g.0 ∷ [])) (pair_key k "database" (h.0 ∷ [])))
        (map (λ g. (g.0, ordered_by k (λ s. pair_key k "question" (g.0 ∷ s ∷ [])) g.1)) groups)

  abbrev pub longest : ByDatabase → ℕ
  longest [] = 0
  longest (g ∷ groups) = max (length g.1) (longest groups)

  abbrev pub empty_building : Building
  empty_building = record { pairs = []; attempts = [] }

  abbrev pub with_conditions :
      ByDatabase → Result PairError (List (String × Arm)) → Result PairError Building
  with_conditions groups (raise e) = raise e
  with_conditions groups (ok first_conditions) =
      let question_order = ordered_groups groups in
      visit_rounds first_conditions question_order (count_up 1 (longest question_order))
        empty_building
