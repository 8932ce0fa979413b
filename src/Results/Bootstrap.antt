-- ===== src/Results/Bootstrap.antt =====
-- src/omni_benchmark/sealed_results.py: `_bootstrap_sample`. `sha256` is the number that the digest of
-- a text is, and `str` Python's text of a number.
use Prim.Native.String.{◌++◌ as append}
use native.Mathlib.Nat.{mod-lt}
use omni_benchmark.Prelude.{
  refl, ℕ, zero, suc, ◌%◌, ◌<◌, ◌≡◌, true, String, Option, none, some, List, [], ◌∷◌, length, All,
  arith, ap,
}
use omni_benchmark.Prelude.Text.{member}
use text.Mathlib.TextPositions.{eq_refl}
use omni_benchmark.Results.Report.{also}

-- `questions[index]`
unfoldable pub element : List String → ℕ → Option String
element [] index = none
element (question ∷ questions) zero = some question
element (question ∷ questions) (suc index) = element questions index

element-member :
    (questions : List String) (index : ℕ)
    → index < length questions
    → (q : String) × (element questions index ≡ some q) × (member q questions ≡ true)
unfolding element
element-member [] index h = absurd (omega (arith, h))
element-member (q ∷ questions) zero h = (q, refl, rw (eq_refl q) refl)
element-member (q ∷ questions) (suc index) h =
    let found = element-member questions index (omega (arith, h)) in
    (found.0, found.1, ground (arith, found.2))

module _ (sha256 : String → ℕ) (str : ℕ → String) where
  abbrev material : ℕ → ℕ → String
  material replicate draw =
      append "omni-livesqlbench-large-v1-analysis-v1"
        (append "\0" (append (str replicate) (append "\0" (str draw))))

  unfoldable pub drawn : List String → ℕ → ℕ → Option String
  unfolding element
  drawn questions replicate draw =
      element questions (sha256 (material replicate draw) % length questions)

  -- The draws from `draw` on, `left` of them.
  unfoldable pub draws : List String → ℕ → ℕ → ℕ → Option (List String)
  unfolding drawn
  draws questions replicate draw zero = some []
  draws questions replicate draw (suc left) =
      also (drawn questions replicate draw) (draws questions replicate (suc draw) left)

  unfoldable pub bootstrap_sample : List String → ℕ → Option (List String)
  unfolding draws
  bootstrap_sample questions replicate = draws questions replicate 0 (length questions)

  draws-member :
      (questions : List String) (replicate draw left : ℕ)
      → 0 < length questions
      → (sample : List String) × (draws questions replicate draw left ≡ some sample)
        × (length sample ≡ left)
        × All (λ q. member q questions ≡ true) sample
  unfolding draws drawn
  draws-member questions replicate draw zero h = ([], refl, refl, tt)
  draws-member questions replicate draw (suc left) h =
      let number = sha256 (material replicate draw) in
      let one = element-member questions (number % length questions) (mod-lt number h) in
      let later = draws-member questions replicate (suc draw) left h in
      (one.0 ∷ later.0, rw (one.1, later.1, draws, drawn) refl, ap suc later.2, (one.2, later.3))

  -- A sample is never out of range: it has as many questions as there are, each one of them.
  pub bootstrap_sample-member :
      (questions : List String) (replicate : ℕ)
      → (sample : List String) × (bootstrap_sample questions replicate ≡ some sample)
        × (length sample ≡ length questions)
        × All (λ q. member q questions ≡ true) sample
  unfolding bootstrap_sample draws
  bootstrap_sample-member [] replicate = ([], refl, refl, tt)
  bootstrap_sample-member (q ∷ questions) replicate =
      draws-member (q ∷ questions) replicate 0 (length (q ∷ questions)) (omega arith)
