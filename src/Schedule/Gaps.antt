-- ===== src/Schedule/Gaps.antt =====
-- freeze_b_schedule.py: how far the repetitions of a question are from each other.
use omni_benchmark.Schedule.Complete.{
  order-total, order-length, asked_at, block_of, round, all_records, order, ordered_records-all,
}
use omni_benchmark.Schedule.{
  ScheduleError, Sources, ScheduleRecord, conditions, offsets, scheduled, condition_order,
  ordered_records,
}
use omni_benchmark.Prelude.{
  total-sort_by, length-append, total-length, Bool-cases, ltb, ltb→lt, ltb→ge, ℕ, zero, suc, ◌+◌,
  ◌-◌, ◌*◌, ◌/◌, ◌%◌, ◌≤◌, ◌<◌, ◌≡◌, ◌≢◌, ◌⊎◌, inl, inr, refl, ap, sym, ◌∙◌, String, some, List, [],
  ◌∷◌, ◌++◌, length, get_elem?, get_or, count_up, arith, length-map, get_elem?-count_up,
  get_elem?-map, get_elem?-concat_map,
}
use native.Mathlib.Nat.{mod-lt, mod-eq_of_lt, mod-eq-sub-mod}
use mathlib.Core.Path.{subst}
use omni_benchmark.Prelude.Text.{occurrences, hits, hits_self}
use omni_benchmark.Action.{Result, ok}

-- The number of blocks between two of them.
abbrev pub gap : ℕ → ℕ → ℕ
gap a b = (a - b) + (b - a)

occurs :
    (d : String) (xs : List String) (i : ℕ) → i < length xs → 0 < occurrences (get_or d xs i) xs
occurs d [] i h = absurd (omega (arith, h))
occurs d (x ∷ xs) zero h = omega (arith, hits_self x)
occurs d (x ∷ xs) (suc i) h = omega (arith, occurs d xs i (omega (arith, h)))

twice :
    (x d : String) (xs : List String) (j : ℕ)
    → hits x x + occurrences x xs ≤ 1
    → j < length xs
    → x ≢ get_or d xs j
twice x d xs j once h e =
    omega (arith, once, hits_self x, subst (λ s. 0 < occurrences s xs) (sym e) (occurs d xs j h))

get_or-injective :
    (d : String) (xs : List String) (i j : ℕ)
    → ((s : String) → occurrences s xs ≤ 1)
    → i < length xs
    → j < length xs
    → get_or d xs i ≡ get_or d xs j
    → i ≡ j
get_or-injective d [] i j once h k e = absurd (omega (arith, h))
get_or-injective d (x ∷ xs) zero zero once h k e = refl
get_or-injective d (x ∷ xs) zero (suc j) once h k e =
    absurd (twice x d xs j (once x) (omega (arith, k)) e)
get_or-injective d (x ∷ xs) (suc i) zero once h k e =
    absurd (twice x d xs i (once x) (omega (arith, h)) (sym e))
get_or-injective d (x ∷ xs) (suc i) (suc j) once h k e =
    ap suc (
      get_or-injective d xs i j (λ s. omega (arith, once s)) (omega (arith, h)) (omega (arith, k))
        e)

around : (m n : ℕ) → m < n + n → (m % n ≡ m) ⊎ (m % n + n ≡ m)
around m n h = elim (Bool-cases (ltb m n)) [
  | inl e ↦ inl (mod-eq_of_lt (ltb→lt m n e))
  | inr e ↦
      let above = ltb→ge m n e in
      inr (
        omega (
          arith,
          mod-eq-sub-mod above,
          mod-eq_of_lt {n = m - n} {m = n} (omega (arith, h, above)),
          above,
        ))
]

-- The three parts of a round: their places, repetitions and offsets.
abbrev Parts : ℕ → ℕ → ℕ → ℕ → Type 0
Parts n k r o =
    ((k ≡ 0) × (r ≡ 1) × (o ≡ 0))
    ⊎ (((k ≡ 1) × (r ≡ 2) × (o ≡ (n + 2) / 3)) ⊎ ((k ≡ 2) × (r ≡ 3) × (o ≡ 2 * n / 3)))

-- Two places of one question in two of the three parts of a round.
module _ (n p q : ℕ) (hp : p < n) (hq : q < n) where
  apart_same :
      (o u : ℕ)
      → o ≤ n
      → u ≤ n
      → (p + o) % n ≡ (q + u) % n
      → (p + o ≡ q + u) ⊎ ((p + o ≡ q + u + n) ⊎ (p + o + n ≡ q + u))
  apart_same o u ho hu e = elim (around (p + o) n (omega (arith, ho))) [
    | inl a ↦ elim (around (q + u) n (omega (arith, hu))) [
      | inl c ↦ inl (omega (arith, a, c, e))
      | inr c ↦ inr (inr (omega (arith, a, c, e)))
    ]
    | inr a ↦ elim (around (q + u) n (omega (arith, hu))) [
      | inl c ↦ inr (inl (omega (arith, a, c, e)))
      | inr c ↦ inl (omega (arith, a, c, e))
    ]
  ]

  within_round : (k r o : ℕ) → Parts n k r o → o ≤ n
  within_round k r o h = ground arith

  far :
      (k r o l t u : ℕ)
      → Parts n k r o
      → Parts n l t u
      → (p + o) % n ≡ (q + u) % n
      → r ≢ t
      → (n ≤ gap (3 * p + k) (3 * q + l) + 5) × (n ≡ 101 → 98 ≤ gap (3 * p + k) (3 * q + l))
  far k r o l t u hk hl e d =
      let places = apart_same o u (within_round k r o hk) (within_round l t u hl) e in
      (ground (arith, places), λ size. ground (arith, places, size))

module _ (sources : Sources) (seed : String) (instance_ids : List String) where
  abbrev n : ℕ
  n = length instance_ids

  -- Where a record stands.
  record IsPlaced (i : ℕ) (x : ScheduleRecord) : Type 0 where
    position : ℕ
    part : ℕ
    offset : ℕ
    index : i / 4 ≡ 3 * position + part
    early : position < n
    parts : Parts n part x.repetition offset
    question : x.instance_id ≡ asked_at sources seed instance_ids position offset

  part_of :
      (k : ℕ) (entry : ℕ × ℕ) → get_elem? (offsets n) k ≡ some entry → Parts n k entry.0 entry.1
  part_of zero entry h =
      let same : entry ≡ (1, 0) = cc in inl (refl, ap (λ x. x.0) same, ap (λ x. x.1) same)
  part_of (suc zero) entry h =
      let same : entry ≡ (2, (n + 2) / 3) = cc in
      inr (inl (refl, ap (λ x. x.0) same, ap (λ x. x.1) same))
  part_of (suc (suc zero)) entry h =
      let same : entry ≡ (3, 2 * n / 3) = cc in
      inr (inr (refl, ap (λ x. x.0) same, ap (λ x. x.1) same))
  part_of (suc (suc (suc k))) entry h = cc

  results_agree :
      {xs ys : List ScheduleRecord} {r : Result ScheduleError (List ScheduleRecord)}
      → r ≡ ok xs
      → r ≡ ok ys
      → xs ≡ ys
  results_agree e f = cc

  four :
      (position : ℕ) (entry : ℕ × ℕ)
      → length (block_of sources seed instance_ids position entry) ≡ 4
  unfolding condition_order
  four position (repetition, offset) =
      let instance_id = asked_at sources seed instance_ids position offset in
      let names = condition_order sources seed instance_id repetition in
      omega (
        arith,
        length-map (scheduled instance_id repetition) names,
        total-length names,
        total-sort_by (λ (c : String). 1) _ conditions,
      )

  twelve : (position : ℕ) → length (round sources seed instance_ids position) ≡ 12
  twelve position =
      let part = λ (entry : ℕ × ℕ). block_of sources seed instance_ids position entry in
      let a : ℕ × ℕ = (1, 0) in
      let b : ℕ × ℕ = (2, (n + 2) / 3) in
      let c : ℕ × ℕ = (3, 2 * n / 3) in
      omega (
        arith,
        length-append (part a) (part b ++ (part c ++ [])),
        length-append (part b) (part c ++ []),
        length-append (part c) [],
        four position a,
        four position b,
        four position c,
      )

  placed :
      (i : ℕ) (x : ScheduleRecord)
      → get_elem? (all_records sources seed instance_ids) i ≡ some x
      → IsPlaced i x
  unfolding scheduled
  placed i x h =
      let (p, r, m, index, within, at, inside) =
        get_elem?-concat_map (round sources seed instance_ids) 12 (count_up 0 n) i x twelve h in
      let place = get_elem?-count_up 0 n p m at in
      let (k, c, entry, index', within', at', inside') =
        get_elem?-concat_map (block_of sources seed instance_ids m) 4 (offsets n) r x (four m)
          inside in
      let made =
        get_elem?-map _
          (condition_order sources seed (asked_at sources seed instance_ids m entry.1) entry.0) c x
          inside' in
      record {
        position = m;
        part = k;
        offset = entry.1;
        index = omega (arith, index, index', within', place.0);
        early = omega (arith, place.0, place.1);
        parts =
            subst (λ repetition. Parts n k repetition entry.1)
              (sym (ap (λ (y : ScheduleRecord). y.repetition) made.1)) (part_of k entry at');
        question = ap (λ (y : ScheduleRecord). y.instance_id) made.1;
      }

  same_place :
      ((s : String) → occurrences s instance_ids ≤ 1)
      → (p o q u : ℕ) → p < n
      → asked_at sources seed instance_ids p o ≡ asked_at sources seed instance_ids q u
      → (p + o) % n ≡ (q + u) % n
  same_place once p o q u h e =
      let questions = order sources seed instance_ids in
      let size = order-length sources seed instance_ids in
      let some_question : 0 < n = omega (arith, h) in
      get_or-injective "" questions ((p + o) % n) ((q + u) % n)
        (λ s. omega (arith, once s, order-total sources seed instance_ids (hits s)))
        (omega (arith, size, mod-lt (p + o) some_question))
        (omega (arith, size, mod-lt (q + u) some_question)) e

  -- If the questions are different, then two records of one question in different repetitions stand in
  -- blocks of four that are at least as far apart as there are questions, less five; of 101
  -- questions, at least 98 blocks apart.
  pub ordered_records-gap :
      (records : List ScheduleRecord) (i j : ℕ) (x y : ScheduleRecord)
      → ((s : String) → occurrences s instance_ids ≤ 1)
      → ordered_records sources instance_ids seed ≡ ok records
      → get_elem? records i ≡ some x
      → get_elem? records j ≡ some y
      → x.instance_id ≡ y.instance_id
      → x.repetition ≢ y.repetition
      → (length instance_ids ≤ gap (i / 4) (j / 4) + 5)
        × (length instance_ids ≡ 101 → 98 ≤ gap (i / 4) (j / 4))
  ordered_records-gap records i j x y once made at_i at_j same differ =
      let all : all_records sources seed instance_ids ≡ records =
        results_agree (ordered_records-all sources seed instance_ids) made in
      let a = placed i x (subst (λ r. get_elem? r i ≡ some x) (sym all) at_i) in
      let b = placed j y (subst (λ r. get_elem? r j ≡ some y) (sym all) at_j) in
      rw (a.index, b.index)
        (far n a.position b.position a.early b.early a.part x.repetition a.offset b.part
          y.repetition b.offset a.parts b.parts
          (same_place once a.position a.offset b.position b.offset a.early
            (sym a.question ∙ same ∙ b.question))
          differ)
