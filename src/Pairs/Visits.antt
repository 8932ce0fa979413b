-- ===== src/Pairs/Visits.antt =====
-- r2_paired_schedule.py: what the rounds of `build_r2_paired_schedule` put into the schedule.
use text.Mathlib.TextPositions.{eq_refl}
use omni_benchmark.Prelude.{
  ℕ, zero, suc, ◌+◌, ◌-◌, ◌*◌, ◌≤◌, ◌≡◌, refl, ap, ◌∙◌, String, true, Option, none, some, List, [],
  ◌∷◌, ◌++◌, map, length, get_elem?, count_up, total, total-append, total-map, total-sort_by,
  total-cong, total_ext, total-swap, total-none, total-count_up-suc, length-append, All, All-All,
  All-map, All-sort_by, arith, ◌==◌,
}
use omni_benchmark.Action.{Result, ok}
use omni_benchmark.Pairs.{
  Hashing, Arm, control, treatment, is_arm, other_condition, PairError, Pair, PairAttempt, Building,
  ByDatabase, value_of,
}
use omni_benchmark.Pairs.Rounds.{
  pair_of, attempt_of, add_pair, visit, and_visit, visit_databases, visit_rounds, ordered_groups,
  longest, empty_building, with_conditions,
}
use omni_benchmark.Pairs.Build.{is_adjacent, are_adjacent}

-- Each pair has its two attempts, next to each other.
abbrev pub IsPaired : Building → Type 0
IsPaired s = (length s.attempts ≡ 2 * length s.pairs) × (are_adjacent s.pairs s.attempts ≡ true)

abbrev pub Weight : Type 0
Weight = String → String → Arm → ℕ

-- A weight of the pairs, by the database, the question and the first arm.
abbrev pub weigh : Weight → List Pair → ℕ
weigh f pairs = total (λ p. f p.database p.instance_id p.first_condition) pairs

abbrev pub Gain : Type 0
Gain = Weight → ℕ

-- The loop goes on without an error, and adds pairs of the weight `gain`.
abbrev pub Visited : Building → Gain → Result PairError Building → Type 0
Visited s gain r =
    (t : Building) × (r ≡ ok t)
    × ((f : Weight) → weigh f t.pairs ≡ weigh f s.pairs + gain f)
    × IsPaired t

are_adjacent-append :
    (pairs : List Pair) (attempts : List PairAttempt) (p : Pair) (a b : PairAttempt)
    → length attempts ≡ 2 * length pairs
    → are_adjacent pairs attempts ≡ true
    → is_adjacent p a b ≡ true
    → are_adjacent (pairs ++ (p ∷ [])) (attempts ++ (a ∷ b ∷ [])) ≡ true
are_adjacent-append [] [] p a b n h e = rw e refl
are_adjacent-append [] (x ∷ xs) p a b n h e = absurd (omega (arith, n))
are_adjacent-append (q ∷ pairs) [] p a b n h e = absurd (omega (arith, n))
are_adjacent-append (q ∷ pairs) (x ∷ []) p a b n h e = absurd (omega (arith, n))
are_adjacent-append (q ∷ pairs) (x ∷ y ∷ attempts) p a b n h e =
    let rest = are_adjacent-append pairs attempts p a b (omega (arith, n)) (ground (arith, h)) e in
    let here : is_adjacent q x y ≡ true = ground (arith, h) in rw (here, rest) refl

module _ (k : Hashing) (firsts : List (String × Arm)) (arm : String → Arm) where
  abbrev IsKnown : String → Type 0
  IsKnown s = value_of s firsts ≡ some (arm s)

  and_visit-Visited :
      (s : Building) (g h : Gain) (r : Result PairError Building)
      (next : Building → Result PairError Building)
      → Visited s g r
      → ((t : Building) → IsPaired t → Visited t h (next t))
      → Visited s (λ f. g f + h f) (and_visit k r next)
  and_visit-Visited s g h r next (t, e, w, p) then_next =
      let (u, e', w', p') = then_next t p in (u, rw e e', λ f. omega (arith, w f, w' f), p')

  abbrev slot : Weight → String → Option String → ℕ
  slot f database none = 0
  slot f database (some s) = f database s (arm s)

  is_adjacent_arms : (a : Arm) → (is_arm a a == 1) ≡ true
  is_adjacent_arms control = refl
  is_adjacent_arms treatment = refl

  add_pair-Visited :
      (database : String) (n : ℕ) (s : String) (b : Building)
      → IsPaired b
      → Visited b (λ f. f database s (arm s)) (ok (add_pair k database n s (arm s) b))
  unfolding add_pair pair_of attempt_of
  add_pair-Visited database n s b (counts, adjacent) =
      let p = pair_of k database n s (arm s) (length b.pairs + 1) in
      let a = attempt_of k p (length b.attempts + 1) 1 (arm s) in
      let z = attempt_of k p (length b.attempts + 2) 2 (other_condition (arm s)) in
      (
        add_pair k database n s (arm s) b,
        refl,
        (λ f. omega (
          arith,
          total-append (λ (q : Pair). f q.database q.instance_id q.first_condition) b.pairs
              (p ∷ []),
        )),
        (
          omega (
            arith,
            counts,
            length-append b.pairs (p ∷ []),
            length-append b.attempts (a ∷ z ∷ []),
          ),
          are_adjacent-append b.pairs b.attempts p a z counts adjacent (
              rw
                (
                  eq_refl p.pair_id,
                  is_adjacent_arms (arm s),
                  is_adjacent_arms (other_condition (arm s)),
                )
                refl),
        ),
      )

  visit-Visited :
      (n : ℕ) (database : String) (ids : List String) (i : ℕ) (b : Building)
      → All IsKnown ids
      → IsPaired b
      → Visited b
          (λ f. slot f database (get_elem? ids i))
          (visit k firsts n database (get_elem? ids i) b)
  visit-Visited n database [] i b known paired = (b, refl, (λ f. omega arith), paired)
  visit-Visited n database (s ∷ ids) zero b known paired =
      rw (known.0) (add_pair-Visited database n s b paired)
  visit-Visited n database (s ∷ ids) (suc i) b known paired =
      visit-Visited n database ids i b known.1 paired

  abbrev Known : ByDatabase → Type 0
  Known groups = All (λ g. All IsKnown g.1) groups

  abbrev round : Weight → ByDatabase → ℕ → ℕ
  round f groups n = total (λ g. slot f g.0 (get_elem? g.1 (n - 1))) groups

  visit_databases-Visited :
      (n : ℕ) (groups : ByDatabase) (b : Building)
      → Known groups
      → IsPaired b
      → Visited b (λ f. round f groups n) (visit_databases k firsts n groups b)
  unfolding visit_databases
  visit_databases-Visited n [] b known paired = (b, refl, (λ f. omega arith), paired)
  visit_databases-Visited n (g ∷ groups) b known paired =
      and_visit-Visited b _ _ _ _ (visit-Visited n g.0 g.1 (n - 1) b known.0 paired)
        (λ t p. visit_databases-Visited n groups t known.1 p)

  visit_rounds-Visited :
      (groups : ByDatabase) (rounds : List ℕ) (b : Building)
      → Known groups
      → IsPaired b
      → Visited b (λ f. total (round f groups) rounds) (visit_rounds k firsts groups rounds b)
  unfolding visit_rounds
  visit_rounds-Visited groups [] b known paired = (b, refl, (λ f. omega arith), paired)
  visit_rounds-Visited groups (n ∷ rounds) b known paired =
      and_visit-Visited b _ _ _ _ (visit_databases-Visited n groups b known paired)
        (λ t p. visit_rounds-Visited groups rounds t known p)

  -- What all questions of a group weigh, and what those of every group weigh.
  abbrev whole : Weight → String × List String → ℕ
  whole f g = total (λ s. f g.0 s (arm s)) g.1

  all_slots :
      (f : Weight) (database : String) (ids : List String) (m : ℕ)
      → length ids ≤ m
      → total (λ i. slot f database (get_elem? ids i)) (count_up 0 m) ≡ whole f (database, ids)
  all_slots f database [] m h =
      total-none (λ i. 0) (count_up 0 m) (All-All (count_up 0 m) (λ i. refl))
  all_slots f database (s ∷ ids) zero h = absurd (omega (arith, h))
  all_slots f database (s ∷ ids) (suc m) h = omega (
    arith,
    total-count_up-suc (λ i. slot f database (get_elem? (s ∷ ids) i)) 0 m,
    all_slots f database ids m (omega (arith, h)),
  )

  longest-All : (groups : ByDatabase) → All (λ g. length g.1 ≤ longest k groups) groups
  longest-All [] = tt
  longest-All (g ∷ groups) =
      (omega arith, All-map groups (λ x h. omega (arith, h)) (longest-All groups))

  -- In as many rounds as the longest group has questions, each question has its turn.
  all_rounds :
      (f : Weight) (groups : ByDatabase)
      → total (round f groups) (count_up 1 (longest k groups)) ≡ total (whole f) groups
  all_rounds f groups =
      let m = longest k groups in
      total-count_up-suc (round f groups) 0 m
      ∙ total_ext (λ i. round f groups (suc i))
          (λ i. total (λ g. slot f g.0 (get_elem? g.1 i)) groups) (count_up 0 m)
          (λ i. ap (λ j. total (λ g. slot f g.0 (get_elem? g.1 j)) groups) (omega arith))
      ∙ total-swap (λ i (g : String × List String). slot f g.0 (get_elem? g.1 i)) (count_up 0 m)
          groups
      ∙ total-cong (λ g. total (λ i. slot f g.0 (get_elem? g.1 i)) (count_up 0 m)) (whole f) groups
          (All-map groups (λ g h. all_slots f g.0 g.1 m h) (longest-All groups))

  each_ordered-Known :
      (groups : ByDatabase) (h : String → List String → List String)
      → ((d : String) (ids : List String) → All IsKnown ids → All IsKnown (h d ids))
      → Known groups
      → Known (map (λ g. (g.0, h g.0 g.1)) groups)
  each_ordered-Known [] h keep known = tt
  each_ordered-Known (g ∷ groups) h keep known =
      (keep g.0 g.1 known.0, each_ordered-Known groups h keep known.1)

  ordered_groups-Known : (groups : ByDatabase) → Known groups → Known (ordered_groups k groups)
  unfolding ordered_groups
  ordered_groups-Known groups known =
      All-sort_by (λ (g : String × List String). All IsKnown g.1) _ _
        (each_ordered-Known groups _ (λ d ids h. All-sort_by IsKnown _ ids h) known)

  ordered_groups-whole :
      (f : Weight) (groups : ByDatabase)
      → total (whole f) (ordered_groups k groups) ≡ total (whole f) groups
  unfolding ordered_groups
  ordered_groups-whole f groups =
      total-sort_by (whole f) _ _
      ∙ total-map (whole f) _ groups
      ∙ total_ext _ (whole f) groups (λ g. total-sort_by (λ s. f g.0 s (arm s)) _ g.1)

  -- If each question has a first arm, the rounds end without an error; each question has been
  -- visited once, with its database and its arm, and each pair has its two attempts next to each other.
  pub with_conditions-visited :
      (groups : ByDatabase)
      → Known groups
      → (t : Building) × (with_conditions k groups (ok firsts) ≡ ok t)
        × ((f : Weight) → weigh f t.pairs ≡ total (whole f) groups)
        × IsPaired t
  with_conditions-visited groups known =
      let ordered = ordered_groups k groups in
      let (t, e, w, p) =
        visit_rounds-Visited ordered (count_up 1 (longest k ordered)) (empty_building k)
          (ordered_groups-Known groups known) (refl, refl) in
      (t, e, (λ f. omega (arith, w f, all_rounds f ordered, ordered_groups-whole f groups)), p)
