-- ===== src/Prelude/Places.antt =====
-- What stands at an index of a list that was put together.
use Prim.Native.Nat.{ℕ, zero, suc, ◌+◌, ◌*◌, ◌<◌}
use mathlib.Core.Path.{◌≡◌, refl}
use mathlib.Core.Logic.{◌⊎◌, inl, inr}
use mathlib.Core.Option.{some}
use mathlib.Core.List.{List, [], ◌∷◌, ◌++◌, map}
use native.Mathlib.Omega.{arith}
use omni_benchmark.Prelude.Lists.{length, get_elem?, count_up, concat_map}

module _ {ℓ} {A : Type ℓ} where
  pub get_elem?-append :
      (xs ys : List A) (i : ℕ) (y : A)
      → get_elem? (xs ++ ys) i ≡ some y
      → ((i < length xs) × (get_elem? xs i ≡ some y))
        ⊎ ((j : ℕ) × (i ≡ length xs + j) × (get_elem? ys j ≡ some y))
  get_elem?-append [] ys i y h = inr (i, omega arith, h)
  get_elem?-append (x ∷ xs) ys zero y h = inl (omega arith, h)
  get_elem?-append (x ∷ xs) ys (suc i) y h = elim (get_elem?-append xs ys i y h) [
    | inl k ↦ inl (omega (arith, k.0), k.1)
    | inr k ↦ inr (k.0, omega (arith, k.1), k.2)
  ]

pub get_elem?-count_up :
    (start count i m : ℕ)
    → get_elem? (count_up start count) i ≡ some m
    → (m ≡ start + i) × (i < count)
get_elem?-count_up start zero i m h = cc
get_elem?-count_up start (suc count) zero m h =
    let same : start ≡ m = cc in (omega (arith, same), omega arith)
get_elem?-count_up start (suc count) (suc i) m h =
    let k = get_elem?-count_up (suc start) count i m h in (omega (arith, k.0), omega (arith, k.1))

module _ {ℓ} {A B : Type ℓ} where
  pub get_elem?-map :
      (f : A → B) (xs : List A) (i : ℕ) (y : B)
      → get_elem? (map f xs) i ≡ some y
      → (x : A) × (y ≡ f x)
  get_elem?-map f [] i y h = cc
  get_elem?-map f (x ∷ xs) zero y h = let same : y ≡ f x = cc in (x, same)
  get_elem?-map f (x ∷ xs) (suc i) y h = get_elem?-map f xs i y h

  -- Where an element of a nested loop comes from, if every round adds as many.
  pub get_elem?-concat_map :
      (g : A → List B) (size : ℕ) (xs : List A) (i : ℕ) (y : B)
      → ((x : A) → length (g x) ≡ size)
      → get_elem? (concat_map g xs) i ≡ some y
      → (q : ℕ) × (r : ℕ) × (x : A) × (i ≡ size * q + r)
        × (r < size)
        × (get_elem? xs q ≡ some x)
        × (get_elem? (g x) r ≡ some y)
  get_elem?-concat_map g size [] i y s h = cc
  get_elem?-concat_map g size (x ∷ xs) i y s h =
      elim (get_elem?-append (g x) (concat_map g xs) i y h) [
        | inl k ↦ (0, i, x, omega arith, omega (arith, k.0, s x), refl, k.1)
        | inr k ↦
            let found = get_elem?-concat_map g size xs k.0 y s k.2 in
            (
              suc found.0,
              found.1,
              found.2,
              omega (arith, k.1, found.3, s x),
              found.4,
              found.5,
              found.6,
            )
      ]
