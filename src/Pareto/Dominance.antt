-- ===== src/Pareto/Dominance.antt =====
-- Dominance is a strict order.
use omni_benchmark.Prelude.{
  ◌≡◌, refl, Bool, true, false, not, ◌&&◌, ◌||◌, Option, none, some, List, [], ◌∷◌, ◌++◌, all, any,
  arith, Bool-cases, inl, inr, ◌⊎◌,
}
use omni_benchmark.Pareto.{
  Dimension, Vector, maximize, minimize, is_none, under, no_worse, strictly_better, dominates,
}

neither : (a b : Bool) → (a && b) ≡ true → (not a || not b) ≡ false
neither a b h = ground (arith, h)

pub and_left : (a b : Bool) → (a && b) ≡ true → a ≡ true
and_left a b h = ground (arith, h)

pub and_right : (a b : Bool) → (a && b) ≡ true → b ≡ true
and_right a b h = ground (arith, h)

pub and_both : (a b : Bool) → a ≡ true → b ≡ true → (a && b) ≡ true
and_both a b h e = ground (arith, h, e)

or_cases : (a b : Bool) → (a || b) ≡ true → (a ≡ true) ⊎ (b ≡ true)
or_cases a b h = ground (arith, h)

or_left : (a b : Bool) → a ≡ true → (a || b) ≡ true
or_left a b h = ground (arith, h)

or_right : (a b : Bool) → b ≡ true → (a || b) ≡ true
or_right a b h = ground (arith, h)

module _ {K : Type 0} where
  any-not : (p : K → Bool) (keys : List K) → any (λ k. not (p k)) keys ≡ not (all p keys)
  any-not p [] = refl
  any-not p (k ∷ keys) = ground (arith, any-not p keys)

  all_trans :
      (p q r : K → Bool) (keys : List K)
      → ((k : K) → p k ≡ true → q k ≡ true → r k ≡ true)
      → all p keys ≡ true
      → all q keys ≡ true
      → all r keys ≡ true
  all_trans p q r [] f h e = refl
  all_trans p q r (k ∷ keys) f h e = ground (arith, h, e, f k, all_trans p q r keys f)

  none_trans :
      (p q r : K → Bool) (keys : List K)
      → any (λ k. p k || q k) keys ≡ false
      → any (λ k. q k || r k) keys ≡ false
      → any (λ k. p k || r k) keys ≡ false
  none_trans p q r [] h e = refl
  none_trans p q r (k ∷ keys) h e = ground (arith, h, e, none_trans p q r keys)

  strict_trans :
      (p q r : K → Bool) (keys : List K)
      → ((k : K) → r k ≡ true → q k ≡ true → p k ≡ true)
      → any (λ k. not (p k)) keys ≡ true
      → all q keys ≡ true
      → any (λ k. not (r k)) keys ≡ true
  strict_trans p q r [] f h e = h
  strict_trans p q r (k ∷ keys) f h e = ground (arith, h, e, f k, strict_trans p q r keys f)

module _ {M : Type 0} (at_most : M → M → Bool) where
  dominates-parts :
      (left right : Vector at_most)
      → dominates at_most left right ≡ true
      → (any (λ k. is_none (left k) || is_none (right k)) (maximize ++ minimize) ≡ false)
        × (no_worse at_most left right ≡ true)
        × (strictly_better at_most left right ≡ true)
  unfolding dominates
  dominates-parts left right h =
      elim (Bool-cases (any (λ k. is_none (left k) || is_none (right k)) (maximize ++ minimize))) [
        | inl missing ↦ ground (arith, rw (missing, dominates) at h)
        | inr there ↦
            let both = rw (there, dominates) at h in
            (there, ground (arith, both), ground (arith, both))
      ]

  strictly_better-no_worse :
      (vector : Vector at_most)
      → no_worse at_most vector vector ≡ true
      → strictly_better at_most vector vector ≡ false
  unfolding no_worse strictly_better
  strictly_better-no_worse v h =
      let p : Dimension → Bool = λ k. under at_most (v k) (v k) in
      rw (any-not p maximize, any-not p minimize) (neither (all p maximize) (all p minimize) h)

  pub dominates_irrefl : (vector : Vector at_most) → dominates at_most vector vector ≡ false
  dominates_irrefl v = elim (Bool-cases (dominates at_most v v)) [
    | inr e ↦ e
    | inl e ↦
        let parts = dominates-parts v v e in
        ground (arith, parts.2, strictly_better-no_worse v parts.1)
  ]

  module _
      (at_most_trans : (x y z : M)
        → at_most x y ≡ true
        → at_most y z ≡ true
        → at_most x z ≡ true) where
    under_trans :
        (x y z : Option M)
        → under at_most x y ≡ true
        → under at_most y z ≡ true
        → under at_most x z ≡ true
    under_trans none y z h e = h
    under_trans (some x) none z h e = ground (arith, h)
    under_trans (some x) (some y) none h e = e
    under_trans (some x) (some y) (some z) h e = at_most_trans x y z h e

    no_worse_trans :
        (a b c : Vector at_most)
        → no_worse at_most a b ≡ true
        → no_worse at_most b c ≡ true
        → no_worse at_most a c ≡ true
    unfolding no_worse
    no_worse_trans a b c h e =
        and_both (all (λ k. under at_most (c k) (a k)) maximize)
          (all (λ k. under at_most (a k) (c k)) minimize)
          (all_trans (λ k. under at_most (b k) (a k)) (λ k. under at_most (c k) (b k))
            (λ k. under at_most (c k) (a k)) maximize (λ k x y. under_trans (c k) (b k) (a k) y x)
            (and_left _ _ h) (and_left _ _ e))
          (all_trans (λ k. under at_most (a k) (b k)) (λ k. under at_most (b k) (c k))
            (λ k. under at_most (a k) (c k)) minimize (λ k x y. under_trans (a k) (b k) (c k) x y)
            (and_right _ _ h) (and_right _ _ e))

    strictly_better_trans :
        (a b c : Vector at_most)
        → strictly_better at_most a b ≡ true
        → no_worse at_most b c ≡ true
        → strictly_better at_most a c ≡ true
    unfolding strictly_better no_worse
    strictly_better_trans a b c h e =
        let high = any (λ k. not (under at_most (a k) (c k))) maximize in
        let low = any (λ k. not (under at_most (c k) (a k))) minimize in
        elim (or_cases (any (λ k. not (under at_most (a k) (b k))) maximize)
          (any (λ k. not (under at_most (b k) (a k))) minimize) h) [
            | inl more ↦ or_left high low (
                strict_trans (λ k. under at_most (a k) (b k)) (λ k. under at_most (c k) (b k))
                  (λ k. under at_most (a k) (c k)) maximize
                  (λ k x y. under_trans (a k) (c k) (b k) x y) more (and_left _ _ e))
            | inr less ↦ or_right high low (
                strict_trans (λ k. under at_most (b k) (a k)) (λ k. under at_most (b k) (c k))
                  (λ k. under at_most (c k) (a k)) minimize
                  (λ k x y. under_trans (b k) (c k) (a k) y x) less (and_right _ _ e))
          ]

    pub dominates_trans :
        (a b c : Vector at_most)
        → dominates at_most a b ≡ true
        → dominates at_most b c ≡ true
        → dominates at_most a c ≡ true
    unfolding dominates
    dominates_trans a b c h e =
        let x = dominates-parts a b h in
        let y = dominates-parts b c e in
        let there =
          none_trans (λ k. is_none (a k)) (λ k. is_none (b k)) (λ k. is_none (c k))
            (maximize ++ minimize) x.0 y.0 in
        rw (there, dominates)
          (and_both _ _ (no_worse_trans a b c x.1 y.1) (strictly_better_trans a b c x.2 y.1))
