-- ===== src/Prelude/Ranges.antt =====
-- Ranges, indices and nested loops, by their totals.
use Prim.Native.Nat.{ℕ, zero, suc, ◌+◌, ◌%◌, ◌<◌}
use mathlib.Core.Path.{◌≡◌, refl, ap, ◌∙◌}
use mathlib.Core.Option.{some}
use mathlib.Core.List.{List, [], ◌∷◌}
use native.Mathlib.Omega.{arith}
use native.Mathlib.Nat.{add-mod_left, mod-eq_of_lt}
use omni_benchmark.Prelude.Lists.{length, All, get_elem?, count_up, concat_map}
use omni_benchmark.Prelude.Totals.{total, total-append, total-cong, All-All}

module _ {ℓ} {A : Type ℓ} where
  abbrev pub get_or : A → List A → ℕ → A
  get_or d [] i = d
  get_or d (x ∷ xs) zero = x
  get_or d (x ∷ xs) (suc i) = get_or d xs i

  pub get_elem?-get_or :
      (d : A) (xs : List A) (i : ℕ) → i < length xs → get_elem? xs i ≡ some (get_or d xs i)
  get_elem?-get_or d [] i h = absurd (omega (arith, h))
  get_elem?-get_or d (x ∷ xs) zero h = refl
  get_elem?-get_or d (x ∷ xs) (suc i) h = get_elem?-get_or d xs i (omega (arith, h))

  pub All-get_or :
      (P : A → Type ℓ) (d : A) (xs : List A) (i : ℕ) → i < length xs → All P xs → P (get_or d xs i)
  All-get_or P d [] i h k = absurd (omega (arith, h))
  All-get_or P d (x ∷ xs) zero h k = k.0
  All-get_or P d (x ∷ xs) (suc i) h k = All-get_or P d xs i (omega (arith, h)) k.1

pub length-count_up : (start count : ℕ) → length (count_up start count) ≡ count
length-count_up start zero = refl
length-count_up start (suc count) = ap suc (length-count_up (suc start) count)

pub All-count_up {ℓ} :
    {P : ℕ → Type ℓ} (start count : ℕ)
    → ((i : ℕ) → i < start + count → P i)
    → All P (count_up start count)
All-count_up start zero h = tt
All-count_up start (suc count) h =
    (h start (omega arith), All-count_up (suc start) count (λ i l. h i (omega (arith, l))))

pub total-count_up-suc :
    (f : ℕ → ℕ) (start count : ℕ)
    → total f (count_up (suc start) count) ≡ total (λ i. f (suc i)) (count_up start count)
total-count_up-suc f start zero = refl
total-count_up-suc f start (suc count) =
    ap (λ n. f (suc start) + n) (total-count_up-suc f (suc start) count)

-- The total over a list, by its indices.
pub total-get_or {ℓ} :
    {A : Type ℓ} (f : A → ℕ) (d : A) (xs : List A)
    → total (λ i. f (get_or d xs i)) (count_up 0 (length xs)) ≡ total f xs
total-get_or f d [] = refl
total-get_or f d (x ∷ xs) =
    omega
      (arith, total-count_up-suc (λ i. f (get_or d (x ∷ xs) i)) 0 (length xs), total-get_or f d xs)

-- A range that begins one later.
total-shift :
    (f : ℕ → ℕ) (start count : ℕ)
    → total f (count_up (suc start) count) + f start
      ≡ total f (count_up start count) + f (start + count)
total-shift f start zero =
    let here : f start ≡ f (start + 0) = ap f (omega arith) in omega (arith, here)
total-shift f start (suc count) =
    let index : f (suc start + count) ≡ f (start + suc count) = ap f (omega arith) in
    omega (arith, total-shift f (suc start) count, index)

plus_zero : (i : ℕ) → i + 0 ≡ i
plus_zero i = omega arith

-- The total over a range, from any of its places around.
pub total-rotate :
    (f : ℕ → ℕ) (n offset : ℕ)
    → total (λ i. f ((i + offset) % n)) (count_up 0 n) ≡ total f (count_up 0 n)
total-rotate f n zero = total-cong _ _ _ (All-count_up 0 n (λ i l. ap f (near i l)))
  where
    near : (i : ℕ) → i < 0 + n → (i + 0) % n ≡ i
    near i l = ap (λ m. m % n) (plus_zero i) ∙ mod-eq_of_lt {m = n} (omega (arith, l))
total-rotate f n (suc offset) =
    let g = λ (i : ℕ). f ((i + offset) % n) in
    let next : total (λ i. f ((i + suc offset) % n)) (count_up 0 n)
        ≡ total (λ i. g (suc i)) (count_up 0 n) =
      total-cong _ _ _ (All-All (count_up 0 n) (λ i. ap (λ m. f (m % n)) (omega arith))) in
    let first : ((0 + n) + offset) % n ≡ (n + offset) % n = ap (λ m. m % n) (omega arith) in
    let last : offset % n ≡ (0 + offset) % n = ap (λ m. m % n) (omega arith) in
    let around : g (0 + n) ≡ g 0 = ap f (first ∙ add-mod_left n offset ∙ last) in
    omega
      (arith, next, total-count_up-suc g 0 n, total-shift g 0 n, around, total-rotate f n offset)

pub total-concat_map {ℓ κ} :
    {A : Type ℓ} {B : Type κ} (f : B → ℕ) (g : A → List B) (xs : List A)
    → total f (concat_map g xs) ≡ total (λ x. total f (g x)) xs
total-concat_map f g [] = refl
total-concat_map f g (x ∷ xs) =
    omega (arith, total-append f (g x) (concat_map g xs), total-concat_map f g xs)
