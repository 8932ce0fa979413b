-- ===== src/Pairs/Balanced.antt =====
-- r2_paired_schedule.py: the balance of the arms that `_first_condition_assignments` gives.
use omni_benchmark.Prelude.{
  ℕ, ◌+◌, ◌*◌, ◌/◌, ◌%◌, ◌≤◌, ◌≡◌, refl, ap, ◌∙◌, String, List, [], ◌∷◌, length, concat_map, total,
  total-cong, total-add, total-concat_map, All, All-map, arith,
}
use omni_benchmark.Prelude.Text.{occurrences}
use omni_benchmark.Action.{ok, raise_if}
use omni_benchmark.Pairs.{
  Hashing, Arm, control, treatment, is_arm, ByDatabase, odd_databases, assigned,
  first_condition_assignments,
}
use omni_benchmark.Pairs.Extras.{
  IsKeyedOnce, remainder, control_extra, control_extra-odd, control_extra-half, length-odd,
}
use omni_benchmark.Pairs.Arms.{control_count, assigned-counts}

-- How many questions begin with an arm.
abbrev pub starts : Arm → List (String × Arm) → ℕ
starts arm firsts = total (λ e. is_arm arm e.1) firsts

-- The number of questions, and the sum of the halves.
abbrev pub question_count : ByDatabase → ℕ
question_count groups = total (λ g. length g.1) groups

halves-remainder :
    (groups : ByDatabase)
    → question_count groups ≡ 2 * total (λ g. length g.1 / 2) groups + total remainder groups
halves-remainder [] = refl
halves-remainder (g ∷ groups) = omega (arith, halves-remainder groups)

module _ (k : Hashing) (groups : ByDatabase) (once : IsKeyedOnce groups) where
  abbrev pub extra : List String
  extra = control_extra k groups once

  -- The arms that the questions of one database begin with.
  abbrev pub arms_of : String × List String → List (String × Arm)
  arms_of g = assigned k extra g

  control-starts :
      starts control (concat_map arms_of groups)
      ≡ total (λ g. length g.1 / 2) groups + length (odd_databases k groups) / 2
  control-starts =
      total-concat_map (λ e. is_arm control e.1) arms_of groups
      ∙ total-cong (λ g. starts control (arms_of g)) (control_count k extra) groups
          (All-map groups (λ g h. (assigned-counts k extra g h).0)
            (control_extra-odd k groups once))
      ∙ total-add (λ (g : String × List String). length g.1 / 2) (λ g. occurrences g.0 extra) groups
      ∙ ap (λ n. total (λ (g : String × List String). length g.1 / 2) groups + n)
          (control_extra-half k groups once)

  treatment-starts :
      starts treatment (concat_map arms_of groups) + starts control (concat_map arms_of groups)
      ≡ question_count groups
  treatment-starts =
      let both =
        total-cong (λ g. starts treatment (arms_of g) + control_count k extra g) (λ g. length g.1)
          groups
          (All-map groups (λ g h. (assigned-counts k extra g h).1)
            (control_extra-odd k groups once)) in
      let controls =
        total-cong (λ g. starts control (arms_of g)) (control_count k extra) groups
          (All-map groups (λ g h. (assigned-counts k extra g h).0)
            (control_extra-odd k groups once)) in
      omega (
        arith,
        both,
        controls,
        total-add (λ g. starts treatment (arms_of g)) (control_count k extra) groups,
        total-concat_map (λ e. is_arm treatment e.1) arms_of groups,
        total-concat_map (λ e. is_arm control e.1) arms_of groups,
      )

  -- The two arms begin equally many of a database's pairs, or one has one more.
  abbrev pub IsBalanced : String × List String → Type 0
  IsBalanced g =
      (starts control (arms_of g) ≤ starts treatment (arms_of g) + 1)
      × (starts treatment (arms_of g) ≤ starts control (arms_of g) + 1)

  pub groups-IsBalanced : All IsBalanced groups
  groups-IsBalanced =
      All-map groups
        (λ g h.
          let counts = assigned-counts k extra g h in
          (omega (arith, counts.0, counts.1, h), omega (arith, counts.0, counts.1, h)))
        (control_extra-odd k groups once)

  -- If the databases are different and the number of their questions is even, then
  -- `_first_condition_assignments` raises nothing and gives arms to the questions of each database in turn;
  -- each arm begins half of all the pairs, and in each database the arms differ by at most one.
  pub first_condition_assignments-IsBalanced :
      question_count groups % 2 ≡ 0
      → (first_condition_assignments k groups ≡ ok (concat_map arms_of groups))
        × (starts control (concat_map arms_of groups) * 2 ≡ question_count groups)
        × (starts treatment (concat_map arms_of groups) * 2 ≡ question_count groups)
        × All IsBalanced groups
  unfolding first_condition_assignments raise_if
  first_condition_assignments-IsBalanced h =
      let even : length (odd_databases k groups) % 2 ≡ 0 =
        omega (arith, h, halves-remainder groups, length-odd k groups once) in
      (
        rw even refl,
        omega (arith, even, control-starts, halves-remainder groups, length-odd k groups once),
        omega (
          arith,
          even,
          treatment-starts,
          control-starts,
          halves-remainder groups,
          length-odd k groups once,
        ),
        groups-IsBalanced,
      )
