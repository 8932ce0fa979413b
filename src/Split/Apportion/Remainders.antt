-- ===== src/Split/Apportion/Remainders.antt =====
-- split.py: the entries that are rounded up are those with the greatest remainders.
use omni_benchmark.Prelude.{
  ◌==◌, ==_iff, ℕ, zero, suc, ◌+◌, ◌*◌, ◌≤◌, ◌<◌, ◌≡◌, refl, Bool, true, false, List, [], ◌∷◌,
  total, take, length, All, All-map, arith, sort_by, insert_by, Bool-cases, inl, inr,
}

module _ {A : Type 0} (r : A → ℕ) where
  abbrev pub Falls : List A → Type 0
  Falls [] = Unit
  Falls (x ∷ xs) = All (λ y. r y ≤ r x) xs × Falls xs

  module _ (before : A → A → Bool) (down : (x y : A) → before x y ≡ true → r y ≤ r x)
      (up : (x y : A) → before x y ≡ false → r x ≤ r y) where
    All-insert :
        (n : ℕ) (x : A) (xs : List A)
        → r x ≤ n
        → All (λ y. r y ≤ n) xs
        → All (λ y. r y ≤ n) (insert_by before x xs)
    unfolding insert_by
    All-insert n x [] p h = (p, tt)
    All-insert n x (y ∷ ys) p h = elim (Bool-cases (before x y)) [
      | inl e ↦ rw e (p, h)
      | inr e ↦ rw e (h.0, All-insert n x ys p h.1)
    ]

    Falls-insert : (x : A) (xs : List A) → Falls xs → Falls (insert_by before x xs)
    unfolding insert_by
    Falls-insert x [] h = (tt, tt)
    Falls-insert x (y ∷ ys) h = elim (Bool-cases (before x y)) [
      | inl e ↦ rw e ((down x y e, All-map ys (λ z k. omega (arith, k, down x y e)) h.0), h)
      | inr e ↦ rw e (All-insert (r y) x ys (up x y e) h.0, Falls-insert x ys h.1)
    ]

    pub Falls-sort : (xs : List A) → Falls (sort_by before xs)
    unfolding sort_by
    Falls-sort [] = tt
    Falls-sort (x ∷ xs) = Falls-insert x (sort_by before xs) (Falls-sort xs)

  below_zero : (n : ℕ) (xs : List A) → n ≡ 0 → All (λ y. r y ≤ n) xs → total r xs ≡ 0
  below_zero n [] e h = refl
  below_zero n (x ∷ xs) e h = omega (arith, e, h.0, below_zero n xs e h.1)

  -- If numbers below `t` fall along a list and add up to `t * m`, the first `m` are there and are
  -- positive.
  pub heads_positive :
      (t m : ℕ) (xs : List A)
      → Falls xs
      → All (λ x. r x < t) xs
      → 0 < t
      → t * m ≤ total r xs
      → All (λ x. 0 < r x) (take m xs) × (m ≤ length xs)
  heads_positive t zero xs f b p h = (tt, omega arith)
  heads_positive t (suc m) [] f b p h = absurd (grind (arith, h, p))
  heads_positive t (suc m) (x ∷ xs) f b p h =
      let e : t * suc m ≡ t + t * m = grind arith in
      elim (Bool-cases (r x == 0)) [
        | inl z ↦
            let zero_x = (==_iff (r x) 0).0 z in
            absurd (omega (arith, h, e, p, zero_x, below_zero (r x) xs zero_x f.0))
        | inr z ↦
            let rest = heads_positive t m xs f.1 b.1 p (omega (arith, h, e, b.0)) in
            ((ground (arith, z), rest.0), omega (arith, rest.1))
      ]
