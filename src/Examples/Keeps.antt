-- ===== src/Examples/Keeps.antt =====
-- Three kept candidates of one condition that differ in accuracy and cost.
use omni_benchmark.Prelude.{
  In, ℕ, ◌≡◌, refl, true, leb, ◌⊎◌, inl, Option, some, List, [], ◌∷◌, arith,
}
use omni_benchmark.Pareto.{Dimension, accuracy, cost, Event, pareto_frontier}
use omni_benchmark.Pareto.Frontier.{outdoes, pareto_frontier-covers}

abbrev vector : ℕ → ℕ → Dimension → Option ℕ
vector a c accuracy = some a
vector a c cost = some c
vector a c _ = some 0

abbrev kept : ℕ → ℕ → ℕ → Event leb
kept identity a c = record {
  identity = identity;
  event = some "decision";
  decision = some "KEEP";
  condition = some "direct";
  candidate_vector = vector a c;
}

abbrev events : List (Event leb)
events = kept 0 5 9 ∷ kept 1 7 4 ∷ kept 2 3 1 ∷ []

frontier : pareto_frontier leb events ≡ kept 1 7 4 ∷ kept 2 3 1 ∷ []
unfolding pareto_frontier
frontier = refl

leb_trans : (x y z : ℕ) → leb x y ≡ true → leb y z ≡ true → leb x z ≡ true
leb_trans x y z h e = ground (arith, h, e)

pareto_frontier-covers_example :
    In (kept 0 5 9) (pareto_frontier leb events)
    ⊎ ((z : Event leb) × In z (pareto_frontier leb events) × (outdoes leb z (kept 0 5 9) ≡ true))
pareto_frontier-covers_example = pareto_frontier-covers leb leb_trans events (kept 0 5 9) (inl refl)
