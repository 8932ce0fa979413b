-- ===== src/Batch/Loop/Money.antt =====
-- baseline_batch.py: sums of amounts of money, and when they are exact.
use omni_benchmark.Prelude.{
  ℕ, ◌+◌, ◌≤◌, ◌<◌, ◌≡◌, List, total, leb, leb→le, Bool-cases, ◌⊎◌, inl, inr, arith,
}
use omni_benchmark.Batch.Loop.{Environment}

-- Sums of amounts are exact up to a ceiling, and above it those of what is above it; floats keep to
-- this where every amount and the ceiling are whole numbers, below 2^53, of one power of two.
pub record IsExact (env : Environment) (ceiling : ℕ) : Type 0 where
  pub plus_exact : (m n : ℕ) → m + n ≤ ceiling → env.plus m n ≡ m + n
  pub plus_above : (m n : ℕ) → ceiling < m + n → ceiling < env.plus m n
  pub sum_exact :
      (amounts : List ℕ)
      → total (λ n. n) amounts ≤ ceiling
      → env.sum amounts ≡ total (λ n. n) amounts
  pub sum_above : (amounts : List ℕ) → ceiling < total (λ n. n) amounts → ceiling < env.sum amounts

le_or_lt : (m n : ℕ) → (m ≤ n) ⊎ (n < m)
le_or_lt m n = elim (Bool-cases (leb m n)) [
  | inl e ↦ inl (leb→le m n e)
  | inr e ↦ inr (ground (arith, e))
]

module _ (env : Environment) (ceiling : ℕ) (exact : IsExact env ceiling) where
  -- A sum that is under the ceiling is the exact one.
  plus_under : (m n : ℕ) → env.plus m n ≤ ceiling → m + n ≤ ceiling
  plus_under m n h = elim (le_or_lt (m + n) ceiling) [
    | inl k ↦ k
    | inr k ↦ absurd (omega (arith, h, exact.plus_above m n k))
  ]

  sum_under : (amounts : List ℕ) → env.sum amounts ≤ ceiling → total (λ n. n) amounts ≤ ceiling
  sum_under amounts h = elim (le_or_lt (total (λ n. n) amounts) ceiling) [
    | inl k ↦ k
    | inr k ↦ absurd (omega (arith, h, exact.sum_above amounts k))
  ]

  -- What the test of a launch bounds.
  pub all_under :
      (spent last : ℕ) (amounts : List ℕ)
      → env.plus (env.plus spent (env.sum amounts)) last ≤ ceiling
      → spent + total (λ n. n) amounts + last ≤ ceiling
  all_under spent last amounts h =
      let outer = plus_under (env.plus spent (env.sum amounts)) last h in
      let inner = plus_under spent (env.sum amounts) (omega (arith, outer)) in
      let sum = exact.sum_exact amounts (sum_under amounts (omega (arith, inner))) in
      omega (arith, outer, exact.plus_exact spent (env.sum amounts) inner, sum)
