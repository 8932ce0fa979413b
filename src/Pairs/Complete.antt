-- ===== src/Pairs/Complete.antt =====
-- r2_paired_schedule.py: the whole schedule that the rounds make of the groups of questions.
use omni_benchmark.Prelude.{
  ℕ, zero, suc, ◌+◌, ◌*◌, ◌%◌, ◌≤◌, ◌<◌, ◌≡◌, ap, sym, ◌∙◌, String, some, List, [], ◌∷◌, ◌++◌,
  length, map, concat_map, total, total-add, total-cong, total_ext, total_le, total-map,
  total-length, total-concat_map, All, All-map, All-zip, arith,
}
use omni_benchmark.Prelude.Text.{hits, hits_self, occurrences}
use omni_benchmark.Action.{ok}
use omni_benchmark.Pairs.{
  Hashing, Arm, control, treatment, is_arm, ByDatabase, Building, value_of,
  first_condition_assignments,
}
use omni_benchmark.Pairs.Rounds.{with_conditions}
use omni_benchmark.Pairs.Build.{first_count, database_count}
use omni_benchmark.Pairs.Extras.{IsKeyedOnce, control_extra-odd}
use omni_benchmark.Pairs.Arms.{total-assigned}
use omni_benchmark.Pairs.Firsts.{Firsts, keyed, arm_of, value_of-arm_of, arm_of-own}
use omni_benchmark.Pairs.Visits.{IsPaired, Weight, with_conditions-visited}
use omni_benchmark.Pairs.Balanced.{
  starts, extra, arms_of, question_count, groups-IsBalanced, first_condition_assignments-IsBalanced,
}

-- How often a question stands in the groups.
abbrev pub question_occurrences : String → ByDatabase → ℕ
question_occurrences s groups = total (λ g. occurrences s g.1) groups

own_present : (ids : List String) → All (λ s. 0 < occurrences s ids) ids
own_present [] = tt
own_present (s ∷ ids) =
    (omega (arith, hits_self s), All-map ids (λ t h. omega (arith, h)) (own_present ids))

each_question :
    (groups : ByDatabase) → All (λ g. All (λ s. 0 < question_occurrences s groups) g.1) groups
each_question [] = tt
each_question (g ∷ groups) = (
  All-map g.1 (λ s h. omega (arith, h)) (own_present g.1),
  All-map groups (λ x all. All-map x.1 (λ s h. omega (arith, h)) all) (each_question groups),
)

module _ {ℓ} {B : Type ℓ} (P : B → Type ℓ) where
  All-left : (xs ys : List B) → All P (xs ++ ys) → All P xs × All P ys
  All-left [] ys h = (tt, h)
  All-left (x ∷ xs) ys h = let (l, r) = All-left xs ys h.1 in ((h.0, l), r)

  All-concat_map {κ} :
      {A : Type κ} (f : A → List B) (xs : List A)
      → All P (concat_map f xs)
      → All (λ x. All P (f x)) xs
  All-concat_map f [] h = tt
  All-concat_map f (x ∷ xs) h = let (l, r) = All-left (f x) _ h in (l, All-concat_map f xs r)

total-times {ℓ} :
    {A : Type ℓ} (c : ℕ) (f : A → ℕ) (xs : List A) → total (λ x. c * f x) xs ≡ c * total f xs
total-times c f [] = omega arith
total-times c f (x ∷ xs) = rw (total-times c f xs) (omega arith)

times_le : (h m n : ℕ) → m ≤ n + 1 → h * m ≤ h * n + h
times_le zero m n le = omega arith
times_le (suc h) m n le = omega (arith, le, times_le h m n le)

-- A weight of the groups that differs from another by at most one, at the groups of a name.
close_by :
    (d : String) (v w : String × List String → ℕ) (groups : ByDatabase)
    → IsKeyedOnce groups
    → All (λ g. v g ≤ w g + 1) groups
    → total (λ g. hits d g.0 * v g) groups ≤ total (λ g. hits d g.0 * w g) groups + 1
close_by d v w groups once le = omega (
  arith,
  total_le (λ g. hits d g.0 * v g) (λ g. hits d g.0 * w g + hits d g.0) groups
      (All-map groups (λ g h. times_le (hits d g.0) (v g) (w g) h) le),
  total-add (λ g. hits d g.0 * w g) (λ g. hits d g.0) groups,
  total-map (hits d) (λ (g : String × List String). g.0) groups,
  once d,
)

module _ (k : Hashing) (groups : ByDatabase) (once : IsKeyedOnce groups)
    (questions_once : (s : String) → question_occurrences s groups ≤ 1) where
  abbrev firsts : Firsts
  firsts = concat_map (arms_of k groups once) groups

  total-arms_of :
      (f : String → ℕ)
      → All (λ g. total (λ e. f e.0) (arms_of k groups once g) ≡ total f g.1) groups
  total-arms_of f =
      All-map groups (λ g h. total-assigned k (extra k groups once) f g (omega (arith, h)))
        (control_extra-odd k groups once)

  keyed-firsts : (s : String) → keyed s firsts ≡ question_occurrences s groups
  keyed-firsts s =
      total-concat_map (λ (e : String × Arm). hits s e.0) (arms_of k groups once) groups
      ∙ total-cong _ (λ g. occurrences s g.1) groups (total-arms_of (hits s))

  firsts_known : All (λ g. All (λ s. value_of s firsts ≡ some (arm_of firsts s)) g.1) groups
  firsts_known =
      All-map groups
        (λ g all.
          All-map g.1 (λ s h. value_of-arm_of s firsts (omega (arith, h, keyed-firsts s))) all)
        (each_question groups)

  -- The questions of a group that begin with an arm, by the arm that each question has.
  arm_of-starts :
      (a : Arm)
      → All
          (λ g. total (λ s. is_arm a (arm_of firsts s)) g.1 ≡ starts a (arms_of k groups once g))
          groups
  arm_of-starts a =
      let own =
        All-concat_map (λ (e : String × Arm). arm_of firsts e.0 ≡ e.1) (arms_of k groups once)
          groups (arm_of-own firsts (λ s. omega (arith, keyed-firsts s, questions_once s))) in
      All-zip groups
        (λ g t all.
          sym t
          ∙ total-cong (λ e. is_arm a (arm_of firsts e.0)) (λ e. is_arm a e.1) _
              (All-map (arms_of k groups once g) (λ e h. ap (is_arm a) h) all))
        (total-arms_of (λ s. is_arm a (arm_of firsts s))) own

  -- The pairs of a schedule for the groups: each question has one, with its database; each arm begins half
  -- of them, and in each database the arms differ by at most one; a pair's attempts are adjacent.
  abbrev pub IsComplete : Building → Type 0
  IsComplete t =
      (length t.pairs ≡ question_count groups)
      × ((s : String)
          → occurrences s (map (λ p. p.instance_id) t.pairs) ≡ question_occurrences s groups)
      × ((d s : String)
          → total (λ p. hits d p.database * hits s p.instance_id) t.pairs
            ≡ total (λ g. hits d g.0 * occurrences s g.1) groups)
      × ((a : Arm) → first_count a t.pairs * 2 ≡ question_count groups)
      × ((d : String)
          → (database_count d control t.pairs ≤ database_count d treatment t.pairs + 1)
            × (database_count d treatment t.pairs ≤ database_count d control t.pairs + 1))
      × IsPaired t

  abbrev whole_weight : Weight → ℕ
  whole_weight f = total (λ g. total (λ s. f g.0 s (arm_of firsts s)) g.1) groups

  whole_weight-arm : (a : Arm) → whole_weight (λ d s b. is_arm a b) ≡ starts a firsts
  whole_weight-arm a =
      total-cong _ (λ g. starts a (arms_of k groups once g)) groups (arm_of-starts a)
      ∙ sym (total-concat_map (λ (e : String × Arm). is_arm a e.1) (arms_of k groups once) groups)

  whole_weight-database :
      (d : String) (a : Arm)
      → whole_weight (λ e s b. hits d e * is_arm a b)
        ≡ total (λ g. hits d g.0 * starts a (arms_of k groups once g)) groups
  whole_weight-database d a = total-cong _ _ groups (
      All-map groups
        (λ g h.
          total-times (hits d g.0) (λ s. is_arm a (arm_of firsts s)) g.1
          ∙ ap (λ n. hits d g.0 * n) h)
        (arm_of-starts a))

  balanced_starts :
      question_count groups % 2 ≡ 0 → (a : Arm) → starts a firsts * 2 ≡ question_count groups
  balanced_starts even control = (first_condition_assignments-IsBalanced k groups once even).1
  balanced_starts even treatment = (first_condition_assignments-IsBalanced k groups once even).2

  -- If the databases are different, no question stands in them twice and the number of questions is
  -- even, then the loops end without an error, in a schedule that has each question once, with its
  -- database; each arm begins half of the pairs, and in each database the arms differ by at most one;
  -- the two attempts of a pair stand next to each other, in its order.
  pub with_conditions-IsComplete :
      question_count groups % 2 ≡ 0
      → (t : Building) × (with_conditions k groups (first_condition_assignments k groups) ≡ ok t)
        × IsComplete t
  with_conditions-IsComplete even =
      let (t, e, w, p) = with_conditions-visited k firsts (arm_of firsts) groups firsts_known in
      let given = (first_condition_assignments-IsBalanced k groups once even).0 in
      let balanced = groups-IsBalanced k groups once in
      (
        t,
        ap (with_conditions k groups) given ∙ e,
        (
          sym (total-length t.pairs)
              ∙ w (λ d s a. 1)
              ∙ total_ext _ (λ g. length g.1) groups (λ g. total-length g.1),
          (λ s. total-map (hits s) (λ p. p.instance_id) t.pairs ∙ w (λ d q a. hits s q)),
          (λ d s.
              w (λ e q a. hits d e * hits s q)
              ∙ total_ext _ (λ g. hits d g.0 * occurrences s g.1) groups
                  (λ g. total-times (hits d g.0) (hits s) g.1)),
          (λ a.
              ap (λ n. n * 2) (w (λ d s b. is_arm a b) ∙ whole_weight-arm a)
              ∙ balanced_starts even a),
          (λ d.
              let controls =
                w (λ e s b. hits d e * is_arm control b) ∙ whole_weight-database d control in
              let treatments =
                w (λ e s b. hits d e * is_arm treatment b) ∙ whole_weight-database d treatment in
              (
                omega (
                  arith,
                  controls,
                  treatments,
                  close_by d _ _ groups once (All-map groups (λ g h. h.0) balanced),
                ),
                omega (
                  arith,
                  controls,
                  treatments,
                  close_by d _ _ groups once (All-map groups (λ g h. h.1) balanced),
                ),
              )),
          p,
        ),
      )
