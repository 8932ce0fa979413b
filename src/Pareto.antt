-- ===== src/Pareto.antt =====
-- src/omni_benchmark/autoresearch_analysis.py: `dominates` and `pareto_frontier`. `at_most` is Python's
-- `<=` of two measures, none of them a NaN, so that `>` is its negation; an event carries its object identity.
pub mod Dominance
pub mod Frontier
use text.Mathlib.Text.{◌==◌ as str_eq}
use omni_benchmark.Prelude.{
  ℕ, String, Bool, true, false, not, ◌&&◌, ◌||◌, Option, none, some, List, [], ◌∷◌, ◌++◌, ◌==◌, all,
  any, keep, if◌then◌else◌,
}

-- The keys of a candidate's vector.
pub data Dimension : Type 0 where
  accuracy stability generality wrong_answer_rate refused_or_error_rate : Dimension
  regression_count cost latency complexity special_case_count : Dimension

abbrev pub maximize : List Dimension
maximize = accuracy ∷ stability ∷ generality ∷ []

abbrev pub minimize : List Dimension
minimize =
    wrong_answer_rate ∷ refused_or_error_rate ∷ regression_count ∷ cost ∷ latency ∷ complexity
    ∷ special_case_count ∷ []

abbrev pub is_none {ℓ} : {A : Type ℓ} → Option A → Bool
is_none none = true
is_none (some x) = false

abbrev pub same_text : Option String → Option String → Bool
same_text none none = true
same_text (some s) (some t) = str_eq s t
same_text _ _ = false

module _ {M : Type 0} (at_most : M → M → Bool) where
  abbrev pub Vector : Type 0
  Vector = Dimension → Option M

  -- `left[key] <= right[key]`, where neither is None.
  abbrev pub under : Option M → Option M → Bool
  under (some x) (some y) = at_most x y
  under _ _ = false

  unfoldable pub no_worse : Vector → Vector → Bool
  no_worse left right =
      all (λ k. under (right k) (left k)) maximize && all (λ k. under (left k) (right k)) minimize

  unfoldable pub strictly_better : Vector → Vector → Bool
  strictly_better left right =
      any (λ k. not (under (left k) (right k))) maximize
      || any (λ k. not (under (right k) (left k))) minimize

  unfoldable pub dominates : Vector → Vector → Bool
  unfolding no_worse strictly_better
  dominates left right =
      if any (λ k. is_none (left k) || is_none (right k)) (maximize ++ minimize)
      then false
      else no_worse left right && strictly_better left right

  pub record Event : Type 0 where
    pub identity : ℕ
    pub event : Option String
    pub decision : Option String
    pub condition : Option String
    pub candidate_vector : Vector

  abbrev pub is_candidate : Event → Bool
  is_candidate e = same_text e.event (some "decision") && same_text e.decision (some "KEEP")

  -- The test of `pareto_frontier` on another candidate.
  unfoldable pub beats : Event → Event → Bool
  unfolding dominates
  beats other candidate =
      not (other.identity == candidate.identity)
      && same_text other.condition candidate.condition
      && dominates other.candidate_vector candidate.candidate_vector

  abbrev pub candidates : List Event → List Event
  candidates events = keep is_candidate events

  unfoldable pub pareto_frontier : List Event → List Event
  unfolding beats
  pareto_frontier events =
      keep (λ candidate. not (any (λ other. beats other candidate) (candidates events)))
        (candidates events)
