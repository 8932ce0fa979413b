-- ===== src/Pareto/Frontier.antt =====
-- The frontier dominates every candidate that it leaves out.
use text.Mathlib.TextEquality.{eq_iff}
use mathlib.Core.Path.{subst}
use omni_benchmark.Prelude.{
  In, ℕ, zero, suc, ◌≤◌, ◌<◌, ◌≡◌, refl, sym, ◌∙◌, ap, String, Bool, true, false, not, ◌&&◌, ◌⊎◌,
  ◌==◌, Option, none, some, List, [], ◌∷◌, any, keep, total, arith, Bool-cases, inl, inr,
}
use omni_benchmark.Pareto.{Event, same_text, dominates, beats, candidates, pareto_frontier}
use omni_benchmark.Pareto.Dominance.{
  dominates_irrefl, dominates_trans, and_left, and_right, and_both,
}

abbrev hit : Bool → ℕ
hit true = 1
hit false = 0

hit_le : (a b : Bool) → (a ≡ true → b ≡ true) → hit a ≤ hit b
hit_le true b f = rw (f refl) (omega arith)
hit_le false b f = omega arith

module _ {A : Type 0} where
  any-In : (p : A → Bool) (xs : List A) → any p xs ≡ true → (y : A) × In y xs × (p y ≡ true)
  any-In p [] h = ground (arith, h)
  any-In p (x ∷ xs) h = elim (Bool-cases (p x)) [
    | inl e ↦ (x, inl refl, e)
    | inr e ↦ let later = any-In p xs (ground (arith, h, e)) in (later.0, inr later.1, later.2)
  ]

  In-keep : (p : A → Bool) (y : A) (xs : List A) → p y ≡ true → In y xs → In y (keep p xs)
  In-keep p y [] e h = h
  In-keep p y (x ∷ xs) e (inl same) = rw (ap p same ∙ e) (inl same)
  In-keep p y (x ∷ xs) e (inr later) = elim (Bool-cases (p x)) [
    | inl kept ↦ rw kept (inr (In-keep p y xs e later))
    | inr left ↦ rw left (In-keep p y xs e later)
  ]

  no_more :
      (p q : A → Bool) (xs : List A)
      → ((x : A) → p x ≡ true → q x ≡ true)
      → total (λ x. hit (p x)) xs ≤ total (λ x. hit (q x)) xs
  no_more p q [] f = omega arith
  no_more p q (x ∷ xs) f = omega (arith, hit_le (p x) (q x) (f x), no_more p q xs f)

  fewer :
      (p q : A → Bool) (y : A) (xs : List A)
      → ((x : A) → p x ≡ true → q x ≡ true)
      → p y ≡ false
      → q y ≡ true
      → In y xs
      → total (λ x. hit (p x)) xs < total (λ x. hit (q x)) xs
  fewer p q y [] f e g h = absurd h
  fewer p q y (x ∷ xs) f e g (inl same) =
      omega (arith, ap hit (ap p same ∙ e), ap hit (ap q same ∙ g), no_more p q xs f)
  fewer p q y (x ∷ xs) f e g (inr later) =
      omega (arith, hit_le (p x) (q x) (f x), fewer p q y xs f e g later)

  -- A strict order, a test that implies it, and those of a list that nothing on it passes the test
  -- against: the others have one of these above them.
  module _ (above test : A → A → Bool) (above-irrefl : (x : A) → above x x ≡ false)
      (above-trans : (x y z : A) → above x y ≡ true → above y z ≡ true → above x z ≡ true)
      (test-above : (x y : A) → test x y ≡ true → above x y ≡ true) (xs : List A) where
    covered :
        (fuel : ℕ) (x : A)
        → total (λ w. hit (above w x)) xs < fuel
        → any (λ w. test w x) xs ≡ true
        → (z : A) × In z (keep (λ y. not (any (λ w. test w y) xs)) xs) × (above z x ≡ true)
    covered zero x h e = absurd (omega (arith, h))
    covered (suc fuel) x h e =
        let beater = any-In (λ w. test w x) xs e in
        let y = beater.0 in
        let higher = test-above y x beater.2 in
        elim (Bool-cases (any (λ w. test w y) xs)) [
          | inr free ↦
              (y, In-keep (λ y. not (any (λ w. test w y) xs)) y xs (ap not free) beater.1, higher)
          | inl beaten ↦
              let less =
                fewer (λ w. above w y) (λ w. above w x) y xs (λ w k. above-trans w y x k higher)
                  (above-irrefl y) higher beater.1 in
              let rest = covered fuel y (omega (arith, less, h)) beaten in
              (rest.0, rest.1, above-trans rest.0 y x rest.2 higher)
        ]

right_false : (a b : Bool) → b ≡ false → (a && b) ≡ false
right_false a b h = ground (arith, h)

same_text-eq : (s t : Option String) → same_text s t ≡ true → s ≡ t
same_text-eq none none e = refl
same_text-eq none (some t) e = ground (arith, e)
same_text-eq (some s) none e = ground (arith, e)
same_text-eq (some s) (some t) e = ap some ((eq_iff s t).0 e)

module _ {M : Type 0} (at_most : M → M → Bool) where
  -- Whether an event dominates another of its condition.
  abbrev pub outdoes : Event at_most → Event at_most → Bool
  outdoes x y =
      same_text x.condition y.condition && dominates at_most x.candidate_vector y.candidate_vector

  outdoes_irrefl : (x : Event at_most) → outdoes x x ≡ false
  outdoes_irrefl x =
      right_false (same_text x.condition x.condition) _
        (dominates_irrefl at_most x.candidate_vector)

  beats-outdoes : (x y : Event at_most) → beats at_most x y ≡ true → outdoes x y ≡ true
  unfolding beats
  beats-outdoes x y h =
      let other = not (x.identity == y.identity) in
      let same = same_text x.condition y.condition in
      let better = dominates at_most x.candidate_vector y.candidate_vector in
      and_both same better (and_right other same (and_left (other && same) better h))
        (and_right (other && same) better h)

  module _
      (at_most_trans : (x y z : M)
        → at_most x y ≡ true
        → at_most y z ≡ true
        → at_most x z ≡ true) where
    outdoes_trans :
        (x y z : Event at_most) → outdoes x y ≡ true → outdoes y z ≡ true → outdoes x z ≡ true
    outdoes_trans x y z h e =
        and_both (same_text x.condition z.condition)
          (dominates at_most x.candidate_vector z.candidate_vector)
          (subst (λ c. same_text c z.condition ≡ true)
            (sym (same_text-eq x.condition y.condition (and_left _ _ h))) (and_left _ _ e))
          (dominates_trans at_most at_most_trans x.candidate_vector y.candidate_vector
            z.candidate_vector (and_right _ _ h) (and_right _ _ e))

    -- If the comparison of measures is transitive, every candidate is on the frontier, or a candidate
    -- on the frontier has its condition and dominates it.
    pub pareto_frontier-covers :
        (events : List (Event at_most)) (x : Event at_most)
        → In x (candidates at_most events)
        → In x (pareto_frontier at_most events)
          ⊎ ((z : Event at_most) × In z (pareto_frontier at_most events) × (outdoes z x ≡ true))
    unfolding pareto_frontier
    pareto_frontier-covers events x h =
        let xs = candidates at_most events in
        elim (Bool-cases (any (λ w. beats at_most w x) xs)) [
          | inr free ↦
              inl (In-keep (λ y. not (any (λ w. beats at_most w y) xs)) x xs (ap not free) h)
          | inl beaten ↦ inr (
              covered outdoes (beats at_most) outdoes_irrefl outdoes_trans beats-outdoes xs
                (suc (total (λ w. hit (outdoes w x)) xs)) x (omega arith) beaten)
        ]
