-- ===== src/Pairs/Build.antt =====
-- r2_paired_schedule.py: `_assert_schedule_invariants`, and `build_r2_paired_schedule` as a whole.
use text.Mathlib.Text.{◌==◌ as str_eq}
use omni_benchmark.Prelude.Text.{text_le, hits}
use omni_benchmark.Prelude.{
  ℕ, ◌+◌, ◌-◌, ◌*◌, ◌/◌, String, Bool, true, false, not, ◌&&◌, ◌||◌, none, some, List, [], ◌∷◌, map,
  ◌==◌, ltb, any, all, is_empty, length, total, sort_by,
}
use omni_benchmark.Action.{Result, ok, raise, raise_if}
use omni_benchmark.Schedule.{is_distinct, is_same}
use omni_benchmark.Pairs.{
  Hashing, Arm, control, treatment, is_arm, PairError, Pair, PairAttempt, Building, ByDatabase,
  value_of, by_database, is_odd, first_condition_assignments, count_not_positive, odd_pair_count,
  seed_invalid, targets_invalid, ids_repeated, id_unknown, ids_not_sorted, metadata_invalid,
  dev_a_count_differs, database_empty, pair_count_differs, count_failed, instance_repeated,
  identity_collision, global_balance_failed, database_balance_failed, adjacency_failed,
}
use omni_benchmark.Pairs.Rounds.{with_conditions}

-- How many of the pairs begin with an arm, of one database or of all.
abbrev pub first_count : Arm → List Pair → ℕ
first_count arm pairs = total (λ p. is_arm arm p.first_condition) pairs

abbrev pub database_count : String → Arm → List Pair → ℕ
database_count database arm pairs =
    total (λ p. hits database p.database * is_arm arm p.first_condition) pairs

abbrev pub is_unbalanced : List Pair → Pair → Bool
is_unbalanced pairs p =
    let control_count = database_count p.database control pairs in
    let treatment_count = database_count p.database treatment pairs in
    ltb 1 ((control_count - treatment_count) + (treatment_count - control_count))

abbrev pub is_adjacent : Pair → PairAttempt → PairAttempt → Bool
is_adjacent p first second =
    str_eq first.pair_id p.pair_id
    && str_eq second.pair_id p.pair_id
    && is_arm first.condition p.first_condition == 1
    && is_arm second.condition p.second_condition == 1
    && first.within_pair_position == 1
    && second.within_pair_position == 2

abbrev pub are_adjacent : List Pair → List PairAttempt → Bool
are_adjacent [] attempts = true
are_adjacent (p ∷ pairs) (first ∷ second ∷ attempts) =
    is_adjacent p first second && are_adjacent pairs attempts
are_adjacent (p ∷ pairs) attempts = false

-- `_assert_schedule_invariants`
unfoldable pub assert_schedule_invariants : ℕ → Building → Result PairError Building
assert_schedule_invariants expected_pair_count s =
    raise_if
      (not (length s.pairs == expected_pair_count)
        || not (length s.attempts == expected_pair_count * 2))
      count_failed
      (raise_if (not (is_distinct (map (λ p. p.instance_id) s.pairs))) instance_repeated (
        raise_if
          (not (is_distinct (map (λ p. p.pair_id) s.pairs))
            || not (is_distinct (map (λ a. a.attempt_id) s.attempts)))
          identity_collision
          (raise_if
            (not (first_count control s.pairs == expected_pair_count / 2)
              || not (first_count treatment s.pairs == expected_pair_count / 2))
            global_balance_failed
            (raise_if (any (is_unbalanced s.pairs) s.pairs) database_balance_failed
              (raise_if (not (are_adjacent s.pairs s.attempts)) adjacency_failed (ok s))))))

pub record Inputs : Type 0 where
  pub targets : List String
  pub public_records : List (String × String)
  pub dev_a_ids : List String
  pub seed_valid : Bool
  pub metadata_valid : Bool
  pub expected_dev_a_count : ℕ
  pub expected_pair_count : ℕ
  pub expected_database_count : ℕ

abbrev pub is_known : List (String × String) → String → Bool
is_known records s = elim (value_of s records) [ none ↦ false | some d ↦ true ]

module _ (k : Hashing) where
  abbrev pub and_assert : ℕ → Result PairError Building → Result PairError Building
  and_assert expected_pair_count (raise e) = raise e
  and_assert expected_pair_count (ok s) = assert_schedule_invariants expected_pair_count s

  -- `build_r2_paired_schedule` from `by_database` to its end, less the artifact's other fields
  unfoldable pub build_pairs : ByDatabase → ℕ → Result PairError Building
  unfolding assert_schedule_invariants first_condition_assignments
  build_pairs groups expected_pair_count =
      raise_if (any (λ g. is_empty g.1) groups) database_empty (
        raise_if (not (total (λ g. length g.1) groups == expected_pair_count)) pair_count_differs (
          and_assert expected_pair_count
            (with_conditions k groups (first_condition_assignments k groups))))

  -- `build_r2_paired_schedule`, with the tests of `_target_databases` and `_dev_a_id_values`
  unfoldable pub build_r2_paired_schedule : Inputs → Result PairError Building
  unfolding build_pairs by_database
  build_r2_paired_schedule i =
      raise_if
        (i.expected_dev_a_count == 0
          || i.expected_pair_count == 0
          || i.expected_database_count == 0)
        count_not_positive
        (raise_if (is_odd i.expected_pair_count) odd_pair_count (
          raise_if (not i.seed_valid) seed_invalid (
            raise_if
              (not (is_same (sort_by text_le i.targets) i.targets)
                || not (is_distinct i.targets)
                || not (length i.targets == i.expected_database_count))
              targets_invalid
              (raise_if (not (is_distinct i.dev_a_ids)) ids_repeated (
                raise_if (not (all (is_known i.public_records) i.dev_a_ids)) id_unknown (
                  raise_if (not (is_same i.dev_a_ids (sort_by text_le i.dev_a_ids))) ids_not_sorted
                    (raise_if (not i.metadata_valid) metadata_invalid (
                      raise_if (not (length i.dev_a_ids == i.expected_dev_a_count))
                        dev_a_count_differs
                        (build_pairs (by_database i.targets i.public_records i.dev_a_ids)
                          i.expected_pair_count)))))))))
