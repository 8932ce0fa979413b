-- ===== src/Results/Inference.antt =====
-- src/omni_benchmark/sealed_results.py: the exact test of McNemar, Holm's adjustment, and the bootstrap
-- samples. A p value is an exact fraction, and `digest` is the number that a SHA-256 gives.
use omni_benchmark.Prelude.{
  ℕ, zero, suc, ◌+◌, ◌*◌, ◌≤◌, ◌<◌, ◌≡◌, refl, ap, String, Bool, true, false, List, [], ◌∷◌, ◌==◌,
  leb, length, sort_by, map, All, All-All, All-over_map, All-sort_by, arith, Bool-cases, inl, inr,
  leb→le, if◌then◌else◌,
}
use native.Mathlib.Nat.{mul-le-mul_right, le_of_mul-le-mul_left}

pub record Fraction : Type 0 where
  pub numerator : ℕ
  pub denominator : ℕ

abbrev pub at_most : Fraction → Fraction → Bool
at_most p q = leb (p.numerator * q.denominator) (q.numerator * p.denominator)

abbrev pub smaller : ℕ → ℕ → ℕ
smaller a b = if leb a b then a else b

-- `min(1.0, count * p)`
abbrev pub scaled_by : ℕ → Fraction → Fraction
scaled_by count p = record {
  numerator = smaller p.denominator (count * p.numerator);
  denominator = p.denominator;
}

abbrev pub greater : Fraction → Fraction → Fraction
greater p q = if at_most p q then q else p

-- `math.comb`
unfoldable pub comb : ℕ → ℕ → ℕ
comb n zero = 1
comb zero (suc k) = 0
comb (suc n) (suc k) = comb n k + comb n (suc k)

-- `sum(math.comb(n, value) for value in range(count))`
unfoldable pub comb_sum : ℕ → ℕ → ℕ
unfolding comb
comb_sum n zero = 0
comb_sum n (suc count) = comb_sum n count + comb n count

unfoldable pub two_to : ℕ → ℕ
two_to zero = 1
two_to (suc n) = 2 * two_to n

unfoldable pub exact_binomial_two_sided : ℕ → ℕ → Fraction
unfolding comb_sum two_to
exact_binomial_two_sided gains losses =
    if gains + losses == 0
    then record { numerator = 1; denominator = 1 }
    else scaled_by 2 (record {
      numerator = comb_sum (gains + losses) (suc (smaller gains losses));
      denominator = two_to (gains + losses);
    })

-- The loop over the ordered labels, with the number of those left and `running`.
unfoldable pub adjust : Fraction → List (String × Fraction) → List (String × Fraction × Fraction)
adjust running [] = []
adjust running ((label, p) ∷ rest) =
    let next = greater running (scaled_by (suc (length rest)) p) in
    (label, p, next) ∷ adjust next rest

unfoldable pub holm : List (String × Fraction) → List (String × Fraction × Fraction)
unfolding adjust
holm reports =
    adjust (record { numerator = 0; denominator = 1 }) (sort_by (λ x y. at_most x.1 y.1) reports)

abbrev pub IsP : Fraction → Type 0
IsP p = (0 < p.denominator) × p.numerator ≤ p.denominator

-- The values after `running`: each is a p value, at least the unadjusted one, that one times the number
-- of those from it on (or one), and the value before it.
abbrev pub IsAdjusted : Fraction → List (String × Fraction × Fraction) → Type 0
IsAdjusted running [] = Unit
IsAdjusted running ((label, p, next) ∷ rest) =
    IsP next
    × (at_most p next ≡ true)
    × (at_most (scaled_by (suc (length rest)) p) next ≡ true)
    × (at_most running next ≡ true)
    × IsAdjusted next rest

two_to-positive : (n : ℕ) → 0 < two_to n
unfolding two_to
two_to-positive zero = omega arith
two_to-positive (suc n) = omega (arith, two_to-positive n)

smaller-le : (a b : ℕ) → smaller a b ≤ a
smaller-le a b = ground arith

scaled_by-IsP : (count : ℕ) (p : Fraction) → 0 < p.denominator → IsP (scaled_by count p)
scaled_by-IsP count p h = (h, smaller-le p.denominator (count * p.numerator))

exact_binomial_two_sided-IsP : (gains losses : ℕ) → IsP (exact_binomial_two_sided gains losses)
unfolding exact_binomial_two_sided
exact_binomial_two_sided-IsP gains losses = elim (Bool-cases (gains + losses == 0)) [
  | inl none_differ ↦ rw (none_differ, exact_binomial_two_sided) (omega arith, omega arith)
  | inr differ ↦
      rw (differ, exact_binomial_two_sided) (scaled_by-IsP 2 _ (two_to-positive (gains + losses)))
]

greater-IsP : (p q : Fraction) → IsP p → IsP q → IsP (greater p q)
greater-IsP p q h k = elim (Bool-cases (at_most p q)) [ inl e ↦ rw e k | inr e ↦ rw e h ]

one_le : (count : ℕ) → 1 ≤ suc count
one_le count = omega arith

le→leb : (a b : ℕ) → a ≤ b → leb a b ≡ true
le→leb a b h = ground (arith, h)

at_most_refl : (p : Fraction) → at_most p p ≡ true
at_most_refl p = ground arith

at_most_total : (p q : Fraction) → at_most p q ≡ false → at_most q p ≡ true
at_most_total p q e = ground (arith, e)

at_most_trans :
    (p q r : Fraction)
    → 0 < q.denominator
    → at_most p q ≡ true
    → at_most q r ≡ true
    → at_most p r ≡ true
at_most_trans p q r h e f =
    let a = mul-le-mul_right r.denominator (leb→le _ _ e) in
    let b = mul-le-mul_right p.denominator (leb→le _ _ f) in
    let c : q.denominator * (p.numerator * r.denominator)
        ≤ q.denominator * (r.numerator * p.denominator) =
      grind (arith, a, b) in
    le→leb _ _ (le_of_mul-le-mul_left c h)

at_most-greater :
    (p q : Fraction) → (at_most p (greater p q) ≡ true) × (at_most q (greater p q) ≡ true)
at_most-greater p q = elim (Bool-cases (at_most p q)) [
  | inl e ↦ rw e (e, at_most_refl q)
  | inr e ↦ rw e (at_most_refl p, at_most_total p q e)
]

at_most-scaled_by : (count : ℕ) (p : Fraction) → IsP p → at_most p (scaled_by (suc count) p) ≡ true
at_most-scaled_by count p h =
    let more : p.numerator ≤ smaller p.denominator (suc count * p.numerator) =
      ground (arith, h.1, mul-le-mul_right p.numerator (one_le count)) in
    le→leb _ _ (mul-le-mul_right p.denominator more)

adjust-names :
    (running : Fraction) (reports : List (String × Fraction))
    → map {B = String × Fraction} (λ r. (r.0, r.1)) (adjust running reports) ≡ reports
unfolding adjust
adjust-names running [] = refl
adjust-names running ((label, p) ∷ rest) =
    ap (λ rs. (label, p) ∷ rs)
      (adjust-names (greater running (scaled_by (suc (length rest)) p)) rest)

length-adjust :
    (running : Fraction) (reports : List (String × Fraction))
    → length (adjust running reports) ≡ length reports
unfolding adjust
length-adjust running [] = refl
length-adjust running ((label, p) ∷ rest) =
    ap suc (length-adjust (greater running (scaled_by (suc (length rest)) p)) rest)

adjust-IsAdjusted :
    (running : Fraction) (reports : List (String × Fraction))
    → IsP running
    → All (λ r. IsP r.1) reports
    → IsAdjusted running (adjust running reports)
unfolding adjust
adjust-IsAdjusted running [] h k = tt
adjust-IsAdjusted running ((label, p) ∷ rest) h k =
    let scaled = scaled_by (suc (length rest)) p in
    let valid = scaled_by-IsP (suc (length rest)) p k.0.0 in
    let bounds = at_most-greater running scaled in
    let next = greater running scaled in
    let sound = greater-IsP running scaled h valid in
    (
      sound,
      at_most_trans p scaled next valid.0 (at_most-scaled_by (length rest) p k.0) bounds.1,
      rw (length-adjust next rest) bounds.1,
      bounds.0,
      adjust-IsAdjusted next rest sound k.1,
    )

zero-IsP : IsP (record { numerator = 0; denominator = 1 })
zero-IsP = (omega arith, omega arith)

-- From the gains and losses of each label, Holm's loop adds a value to each of them, in the order of
-- their exact p values: at most one, at least the p value of its own counts, at least that times the
-- number of labels from it on or one, and at least the value before it.
pub holm-IsAdjusted :
    (counts : List (String × ℕ × ℕ))
    → (map {B = String × Fraction}
          (λ r. (r.0, r.1))
          (holm (map (λ c. (c.0, exact_binomial_two_sided c.1 c.2)) counts))
        ≡ sort_by
            (λ x y. at_most x.1 y.1)
            (map (λ c. (c.0, exact_binomial_two_sided c.1 c.2)) counts))
      × IsAdjusted
          (record { numerator = 0; denominator = 1 })
          (holm (map (λ c. (c.0, exact_binomial_two_sided c.1 c.2)) counts))
unfolding holm
holm-IsAdjusted counts =
    let reports = map (λ c. (c.0, exact_binomial_two_sided c.1 c.2)) counts in
    let start : Fraction = record { numerator = 0; denominator = 1 } in
    let ordered = sort_by (λ x y. at_most x.1 y.1) reports in
    (
      adjust-names start ordered,
      adjust-IsAdjusted start ordered zero-IsP (
          All-sort_by (λ r. IsP r.1) (λ x y. at_most x.1 y.1) reports
            (All-over_map (λ r. IsP r.1) (λ c. (c.0, exact_binomial_two_sided c.1 c.2)) counts
              (All-All counts (λ c. exact_binomial_two_sided-IsP c.1 c.2)))),
    )
