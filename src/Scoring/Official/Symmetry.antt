-- ===== src/Scoring/Official/Symmetry.antt =====
-- The official comparison does not depend on which result is the candidate's.
use omni_benchmark.Prelude.{
  ◌≡◌, ◌⊎◌, inl, inr, refl, ap, Bool, true, false, ◌&&◌, ◌||◌, Option, none, some, List, [], ◌∷◌,
  is_empty, arith, if◌then◌else◌,
}
use omni_benchmark.Scoring.Values.{Value}
use omni_benchmark.Scoring.Sensitivity.{Conditions, Rows, Verdict, compared}
use omni_benchmark.Action.{Result, ok, raise}
use omni_benchmark.Scoring.Official.{
  Raised, normalized, Interpreter, same_list, same_values, included, ordered_or_not, official_order,
  compare_official, official_soft_ex_equal, official_item,
}

and_comm : (a b : Bool) → (a && b) ≡ (b && a)
and_comm a b = ground arith

or_comm : (a b : Bool) → (a || b) ≡ (b || a)
or_comm a b = ground arith

same_list-sym :
    {A : Type 0} (test : A → A → Bool)
    → ((x y : A) → test x y ≡ test y x)
    → (xs ys : List A) → same_list test xs ys ≡ same_list test ys xs
same_list-sym test h [] [] = refl
same_list-sym test h [] (y ∷ ys) = refl
same_list-sym test h (x ∷ xs) [] = refl
same_list-sym test h (x ∷ xs) (y ∷ ys) = λ i. h x y i && same_list-sym test h xs ys i

-- The same answer of both orders, or an exception in both.
abbrev pub IsSymmetric : Result Raised Verdict → Result Raised Verdict → Type 0
IsSymmetric r r' = (r ≡ r') ⊎ ((e : Raised) × (e' : Raised) × (r ≡ raise e) × (r' ≡ raise e'))

module _ (interpreter : Interpreter)
    (same-sym : (x y : Value) → interpreter.same x y ≡ interpreter.same y x) where
  ordered_or_not-sym :
      (order : Option Bool) (xs ys : List (List Value))
      → ordered_or_not interpreter order xs ys ≡ ordered_or_not interpreter order ys xs
  ordered_or_not-sym none xs ys = refl
  ordered_or_not-sym (some true) xs ys =
      ap compared
        (same_list-sym (same_values interpreter) (same_list-sym interpreter.same same-sym) xs ys)
  ordered_or_not-sym (some false) xs ys =
      ap compared (and_comm (included interpreter xs ys) (included interpreter ys xs))

  compare_official-IsSymmetric :
      (conditions : Option Conditions) (xs ys : Result Raised (List (List Value)))
      → IsSymmetric
          (compare_official interpreter conditions xs ys)
          (compare_official interpreter conditions ys xs)
  unfolding compare_official
  compare_official-IsSymmetric conditions (raise e) (raise e') = inr (e, e', refl, refl)
  compare_official-IsSymmetric conditions (raise e) (ok ys) = inl refl
  compare_official-IsSymmetric conditions (ok xs) (raise e) = inl refl
  compare_official-IsSymmetric conditions (ok xs) (ok ys) = inl (λ i. ok (
      if or_comm (is_empty xs) (is_empty ys) i
      then compared false
      else ordered_or_not-sym (official_order conditions) xs ys i))

  -- If Python's `==` is symmetric on values, the official comparison of two results is the same
  -- whichever of them is the candidate's: the same answer, the same error of the policy or the same
  -- exception, unless both results have a value that raises one.
  pub official_soft_ex_equal-IsSymmetric :
      (predicted gold : Rows) (conditions : Option Conditions)
      → IsSymmetric
          (official_soft_ex_equal interpreter predicted gold conditions)
          (official_soft_ex_equal interpreter gold predicted conditions)
  unfolding official_soft_ex_equal
  official_soft_ex_equal-IsSymmetric predicted gold conditions =
      compare_official-IsSymmetric conditions
        (normalized (normalized (official_item interpreter)) predicted)
        (normalized (normalized (official_item interpreter)) gold)
