-- ===== src/Split/Apportion/Quotas.antt =====
-- split.py: what `_allocate_proportionally` promises, as the method of the largest remainder.
use omni_benchmark.Prelude.{
  ◌||◌, ltb, ltb, ==_iff, ◌==◌, Bool-cases, All-All, total-none, total-add, length-take, ℕ, ◌+◌,
  ◌-◌, ◌*◌, ◌≤◌, ◌<◌, ◌≡◌, refl, ap, ◌∙◌, String, Bool, true, false, [], ◌∷◌, total, take, length,
  All, arith, sort_by, some, All-take, All-sort_by, All-map, All-zip, total-take, total-sort_by,
  inl, inr, ◌⊎◌,
}
use native.Mathlib.Nat.{
  div-add-mod, mod-lt, mul-add, zero-mul, add-mul, mul-sub, mul_comm, mul-le-mul_right,
  lt_of_mul-lt-mul_right, le_of_mul-le-mul_left,
}
use omni_benchmark.Split.Apportion.{
  Counts, whole, remainder, ranks_before, bump_all, share, share_out, allocate_proportionally,
}
use omni_benchmark.Split.Apportion.Bumps.{
  hit, IsDict, sharing, times, bump_all-sharing, times-once, hit-agrees, total-sharing, total-times,
}
use omni_benchmark.Split.Apportion.Remainders.{Falls-sort, heads_positive}

module _ {K : Type 0} (name : K → String) (allocation population : ℕ) where
  -- The share of an entry is its quota, rounded down or up, and no more than the entry has.
  pub record IsRounded (entry : K × ℕ) (n : ℕ) : Type 0 where
    pub at_least : whole name allocation population entry ≤ n
    pub at_most : n * population < allocation * entry.1 + population
    pub within : n ≤ entry.1

  quota_lem :
      (e : K × ℕ)
      → population * whole name allocation population e + remainder name allocation population e
        ≡ allocation * e.1
  unfolding whole remainder
  quota_lem e = div-add-mod (allocation * e.1) population

  quotas_lem :
      (entries : Counts name)
      → population * total (whole name allocation population) entries
          + total (remainder name allocation population) entries
        ≡ allocation * total share entries
  quotas_lem [] = omega arith
  quotas_lem (e ∷ rest) = omega (
    arith,
    quota_lem e,
    quotas_lem rest,
    mul-add population (whole name allocation population e)
        (total (whole name allocation population) rest),
    mul-add allocation e.1 (total share rest),
  )

  abbrev before : K × ℕ → K × ℕ → Bool
  before = ranks_before name allocation population

  abbrev rest_of : K × ℕ → ℕ
  rest_of = remainder name allocation population

  ranks_before-down : (x y : K × ℕ) → before x y ≡ true → rest_of y ≤ rest_of x
  unfolding ranks_before
  ranks_before-down x y h = ground (arith, h)

  ranks_before-up : (x y : K × ℕ) → before x y ≡ false → rest_of x ≤ rest_of y
  unfolding ranks_before
  ranks_before-up x y h = ground (arith, h)

  rest_lt : (e : K × ℕ) → 0 < population → rest_of e < population
  unfolding remainder
  rest_lt e p = mod-lt (allocation * e.1) p

  no_hit :
      (x y : K × ℕ)
      → 0 < rest_of x
      → rest_of y ≡ 0
      → (hit name x y ≡ 0) ⊎ (rest_of x ≡ rest_of y)
      → hit name x y ≡ 0
  no_hit x y positive z (inl h) = h
  no_hit x y positive z (inr h) = absurd (omega (arith, positive, z, h))

  most_lem :
      (e : K × ℕ) (t : ℕ)
      → 0 < population
      → t ≤ 1
      → (rest_of e ≡ 0 → t ≡ 0)
      → (whole name allocation population e + t) * population < allocation * e.1 + population
  most_lem e t p one idle =
      let q = quota_lem e in
      let wide = add-mul (whole name allocation population e) t population in
      let flip = mul_comm (whole name allocation population e) population in
      elim (Bool-cases (rest_of e == 0)) [
        | inl z ↦
            let none_up : t * population ≡ 0 =
              ap (λ n. n * population) (idle ((==_iff _ _).0 z)) ∙ zero-mul population in
            omega (arith, q, wide, flip, none_up, p)
        | inr z ↦
            let some_rest : 0 < rest_of e = ground (arith, z) in
            let some_up : t * population ≤ 1 * population = mul-le-mul_right population one in
            omega (arith, q, wide, flip, some_up, some_rest)
      ]

  within_lem :
      (e : K × ℕ) (n : ℕ)
      → allocation ≤ population
      → n * population < allocation * e.1 + population
      → n ≤ e.1
  within_lem e n a h =
      let scaled : allocation * e.1 ≤ population * e.1 = mul-le-mul_right e.1 a in
      let wide : (e.1 + 1) * population ≡ population * e.1 + population = grind arith in
      let below : n < e.1 + 1 =
        lt_of_mul-lt-mul_right population (omega (arith, h, scaled, wide)) in
      omega (arith, below)

  rounded :
      (e : K × ℕ) (t : ℕ)
      → 0 < population
      → allocation ≤ population
      → t ≤ 1
      → (rest_of e ≡ 0 → t ≡ 0)
      → IsRounded e (whole name allocation population e + t)
  rounded e t p a one idle =
      let most : (whole name allocation population e + t) * population
          < allocation * e.1 + population =
        most_lem e t p one idle in
      record { at_least = omega arith; at_most = most; within = within_lem e _ a most }

  module _ (entries : Counts name) (dict : IsDict name entries) (p : 0 < population)
      (size : total share entries ≡ population) (a : allocation ≤ population) where
    abbrev left : ℕ
    left = allocation - total (whole name allocation population) entries

    abbrev ranked : Counts name
    ranked = sort_by before entries

    whole_lem :
        population * total (whole name allocation population) entries + total rest_of entries
        ≡ population * allocation
    whole_lem = quotas_lem entries ∙ ap (λ n. allocation * n) size ∙ mul_comm allocation population

    heads_lem : All (λ e. 0 < rest_of e) (take left ranked) × (left ≤ length ranked)
    heads_lem =
        heads_positive rest_of population left ranked
          (Falls-sort rest_of before ranks_before-down ranks_before-up entries)
          (All-sort_by _ before entries (All-All entries (λ e. rest_lt e p))) p
          (omega (
            arith,
            whole_lem,
            total-sort_by rest_of before entries,
            mul-sub population allocation (total (whole name allocation population) entries),
          ))

    abbrev up : K × ℕ → ℕ
    up e = times name (take left ranked) e

    up_lem : All (λ e. (up e ≤ 1) × (rest_of e ≡ 0 → up e ≡ 0)) entries
    up_lem =
        All-zip entries
          (λ y once same. (
            omega (
              arith,
              once,
              total-take (λ x. hit name x y) left ranked,
              total-sort_by (λ x. hit name x y) before entries,
            ),
            λ z.
                total-none (λ x. hit name x y) (take left ranked)
                  (All-zip (take left ranked) (λ x positive. no_hit x y positive z) heads_lem.0
                    (All-take _ left ranked (All-sort_by _ before entries same))),
          ))
          (times-once name entries dict) (hit-agrees name rest_of entries dict)

    sum_lem : total (λ e. whole name allocation population e + up e) entries ≡ allocation
    sum_lem =
        let fits : total (whole name allocation population) entries ≤ allocation =
          le_of_mul-le-mul_left {k = population} (omega (arith, whole_lem)) p in
        omega (
          arith,
          fits,
          total-add (whole name allocation population) up entries,
          heads_lem.1,
          total-times name (take left ranked) entries (
              All-take _ left ranked (All-sort_by _ before entries (times-once name entries dict))),
          length-take left ranked,
        )

    share_out-sharing :
        share_out name entries population allocation
        ≡ sharing name (λ e. whole name allocation population e + up e) entries
    unfolding share_out
    share_out-sharing =
        ap
          (λ n.
            bump_all name (take (allocation - n) ranked)
              (sharing name (whole name allocation population) entries))
          (total-sharing name (whole name allocation population) entries)
        ∙ bump_all-sharing name (whole name allocation population) (take left ranked) entries dict

guard_lem :
    (allocation population : ℕ)
    → allocation ≤ population
    → 0 < population
    → (ltb population allocation || population == 0) ≡ false
guard_lem allocation population a p = ground arith

-- If the keys are those of a dict, and the allocation is no more than the whole population, which is
-- not empty, then `_allocate_proportionally` gives the keys shares that add up to the allocation,
-- each of them its quota rounded down or up and no more than the key has.
pub allocate_proportionally-IsRounded :
    {K : Type 0} (name : K → String) (counts : Counts name) (allocation : ℕ)
    → IsDict name counts
    → allocation ≤ total share counts
    → 0 < total share counts
    → (shares : K × ℕ → ℕ) × (allocate_proportionally name counts allocation
        ≡ some (sharing name shares counts))
      × (total shares counts ≡ allocation)
      × All (λ e. IsRounded name allocation (total share counts) e (shares e)) counts
unfolding allocate_proportionally
allocate_proportionally-IsRounded {K} name counts allocation dict a p = (
  λ e.
      whole name allocation (total share counts) e
      + up name allocation (total share counts) counts dict p refl a e,
  rw (guard_lem allocation (total share counts) a p)
      (ap some (share_out-sharing name allocation (total share counts) counts dict p refl a)),
  sum_lem name allocation (total share counts) counts dict p refl a,
  All-map counts (λ e h. rounded name allocation (total share counts) e _ p a h.0 h.1)
      (up_lem name allocation (total share counts) counts dict p refl a),
)
