-- ===== src/Split/Apportion.antt =====
-- src/omni_benchmark/split.py: `_allocate_proportionally`. The quotas `allocation * count / total` all
-- have the denominator `total`, so they are ordered by their remainders.
pub mod Bumps
pub mod Remainders
pub mod Quotas
use text.Mathlib.Text.{◌==◌ as str_eq}
use omni_benchmark.Prelude.{
  ℕ, suc, ◌-◌, ◌*◌, ◌/◌, ◌%◌, String, Bool, ◌&&◌, ◌||◌, Option, none, some, List, [], ◌∷◌, map, ltb,
  ◌==◌, take, total, sort_by, if◌then◌else◌,
}
use omni_benchmark.Prelude.Text.{text_le}

abbrev pub share : {K : Type 0} → K × ℕ → ℕ
share entry = entry.1

module _ {K : Type 0} (name : K → String) where
  abbrev pub Counts : Type 0
  Counts = List (K × ℕ)

  unfoldable pub whole : ℕ → ℕ → K × ℕ → ℕ
  whole allocation population entry = (allocation * entry.1) / population

  unfoldable pub remainder : ℕ → ℕ → K × ℕ → ℕ
  remainder allocation population entry = (allocation * entry.1) % population

  -- The order of `ranked`: the greater remainder first, then by name.
  unfoldable pub ranks_before : ℕ → ℕ → K × ℕ → K × ℕ → Bool
  unfolding remainder
  ranks_before allocation population x y =
      ltb (remainder allocation population y) (remainder allocation population x)
      || (remainder allocation population x == remainder allocation population y
          && text_le (name x.0) (name y.0))

  -- `allocated[key] += 1`
  unfoldable pub bump : K → Counts → Counts
  bump key [] = []
  bump key ((k, share) ∷ rest) =
      let later = bump key rest in
      if str_eq (name key) (name k) then (k, suc share) ∷ rest else (k, share) ∷ later

  -- `for key in ranked[:remaining]`
  unfoldable pub bump_all : Counts → Counts → Counts
  bump_all [] allocated = allocated
  bump_all (entry ∷ ranked) allocated = bump_all ranked (bump entry.0 allocated)

  unfoldable pub share_out : Counts → ℕ → ℕ → Counts
  unfolding whole ranks_before bump_all
  share_out counts population allocation =
      let allocated = map (λ entry. (entry.0, whole allocation population entry)) counts in
      let remaining = allocation - total share allocated in
      bump_all (take remaining (sort_by (ranks_before allocation population) counts)) allocated

  unfoldable pub allocate_proportionally : Counts → ℕ → Option Counts
  unfolding share_out
  allocate_proportionally counts allocation =
      let population = total share counts in
      if ltb population allocation || population == 0
      then none
      else some (share_out counts population allocation)
