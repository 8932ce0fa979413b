-- ===== src/Prelude/Totals.antt =====
-- Sums over lists, Python's stable `sorted` and list comprehensions with a test. A length, a sum and
-- a number of occurrences are totals, so one lemma for each operation serves all of them.
use Prim.Native.Nat.{ℕ, zero, suc, ◌+◌, ◌≤◌}
use mathlib.Core.Path.{◌≡◌, refl, ap, sym, ◌∙◌}
use mathlib.Core.Bool.{Bool, true, false, not}
use mathlib.Core.List.{List, [], ◌∷◌, ◌++◌, map}
use native.Mathlib.Omega.{arith}
use omni_benchmark.Prelude.Tests.{if◌then◌else◌}
use omni_benchmark.Prelude.Lists.{length, take, drop, All}

module _ {ℓ} {A : Type ℓ} where
  abbrev pub total : (A → ℕ) → List A → ℕ
  total f [] = 0
  total f (x ∷ xs) = f x + total f xs

  -- `[x for x in xs if test(x)]`
  abbrev pub keep : (A → Bool) → List A → List A
  keep test [] = []
  keep test (x ∷ xs) = let rest = keep test xs in if test x then x ∷ rest else rest

  unfoldable pub insert_by : (A → A → Bool) → A → List A → List A
  insert_by before x [] = x ∷ []
  insert_by before x (y ∷ ys) =
      let later = insert_by before x ys in if before x y then x ∷ y ∷ ys else y ∷ later

  -- `sorted(xs, key=…)`, where `before x y` says that the key of `x` is at most the key of `y`.
  unfoldable pub sort_by : (A → A → Bool) → List A → List A
  sort_by before [] = []
  sort_by before (x ∷ xs) = insert_by before x (sort_by before xs)

  pub total-append : (f : A → ℕ) (xs ys : List A) → total f (xs ++ ys) ≡ total f xs + total f ys
  total-append f [] ys = omega arith
  total-append f (x ∷ xs) ys = omega (arith, total-append f xs ys)

  pub total-keep :
      (f : A → ℕ) (test : A → Bool) (xs : List A)
      → total f (keep test xs) + total f (keep (λ x. not (test x)) xs) ≡ total f xs
  total-keep f test [] = omega arith
  total-keep f test (x ∷ xs) = ground (arith, total-keep f test xs)

  pub total-take : (f : A → ℕ) (n : ℕ) (xs : List A) → total f (take n xs) ≤ total f xs
  total-take f zero xs = omega arith
  total-take f (suc n) [] = omega arith
  total-take f (suc n) (x ∷ xs) = omega (arith, total-take f n xs)

  pub total-take-drop :
      (f : A → ℕ) (n : ℕ) (xs : List A) → total f (take n xs) + total f (drop n xs) ≡ total f xs
  total-take-drop f zero xs = omega arith
  total-take-drop f (suc n) [] = refl
  total-take-drop f (suc n) (x ∷ xs) = omega (arith, total-take-drop f n xs)

  pub total-insert_by :
      (f : A → ℕ) (before : A → A → Bool) (x : A) (xs : List A)
      → total f (insert_by before x xs) ≡ f x + total f xs
  unfolding insert_by
  total-insert_by f before x [] = refl
  total-insert_by f before x (y ∷ ys) = ground (arith, total-insert_by f before x ys)

  pub total-sort_by :
      (f : A → ℕ) (before : A → A → Bool) (xs : List A) → total f (sort_by before xs) ≡ total f xs
  unfolding sort_by
  total-sort_by f before [] = refl
  total-sort_by f before (x ∷ xs) =
      omega (arith, total-insert_by f before x (sort_by before xs), total-sort_by f before xs)

  pub total-length : (xs : List A) → total (λ _. 1) xs ≡ length xs
  total-length [] = refl
  total-length (x ∷ xs) = omega (arith, total-length xs)

  pub length-keep : (test : A → Bool) (xs : List A) → length (keep test xs) ≤ length xs
  length-keep test [] = omega arith
  length-keep test (x ∷ xs) = ground (arith, length-keep test xs)

  pub total-add : (f g : A → ℕ) (xs : List A) → total (λ x. f x + g x) xs ≡ total f xs + total g xs
  total-add f g [] = omega arith
  total-add f g (x ∷ xs) = omega (arith, total-add f g xs)

  module _ {κ} (P : A → Type κ) where
    pub All-take : (n : ℕ) (xs : List A) → All P xs → All P (take n xs)
    All-take zero xs h = tt
    All-take (suc n) [] h = tt
    All-take (suc n) (x ∷ xs) h = (h.0, All-take n xs h.1)

    All-if : (t : Bool) (xs ys : List A) → All P xs → All P ys → All P (if t then xs else ys)
    All-if true xs ys h k = h
    All-if false xs ys h k = k

    pub All-keep : (test : A → Bool) (xs : List A) → All P xs → All P (keep test xs)
    All-keep test [] h = tt
    All-keep test (x ∷ xs) h =
        All-if (test x) _ _ (h.0, All-keep test xs h.1) (All-keep test xs h.1)

    All-insert_by :
        (before : A → A → Bool) (x : A) (xs : List A)
        → P x
        → All P xs
        → All P (insert_by before x xs)
    unfolding insert_by
    All-insert_by before x [] p h = (p, tt)
    All-insert_by before x (y ∷ ys) p h =
        All-if (before x y) _ _ (p, h) (h.0, All-insert_by before x ys p h.1)

    pub All-sort_by : (before : A → A → Bool) (xs : List A) → All P xs → All P (sort_by before xs)
    unfolding sort_by
    All-sort_by before [] h = tt
    All-sort_by before (x ∷ xs) h = All-insert_by before x _ h.0 (All-sort_by before xs h.1)

    pub All-append : (xs ys : List A) → All P xs → All P ys → All P (xs ++ ys)
    All-append [] ys h k = k
    All-append (x ∷ xs) ys h k = (h.0, All-append xs ys h.1 k)

    pub All-drop : (n : ℕ) (xs : List A) → All P xs → All P (drop n xs)
    All-drop zero xs h = h
    All-drop (suc n) [] h = tt
    All-drop (suc n) (x ∷ xs) h = All-drop n xs h.1

  pub All-map {κ} : {P Q : A → Type κ} (xs : List A) → ((x : A) → P x → Q x) → All P xs → All Q xs
  All-map [] f h = tt
  All-map (x ∷ xs) f h = (f x h.0, All-map xs f h.1)

  pub All-All {κ} : {P : A → Type κ} (xs : List A) → ((x : A) → P x) → All P xs
  All-All [] f = tt
  All-All (x ∷ xs) f = (f x, All-All xs f)

  pub All-zip {κ} :
      {P Q R : A → Type κ} (xs : List A)
      → ((x : A) → P x → Q x → R x)
      → All P xs
      → All Q xs
      → All R xs
  All-zip [] f h k = tt
  All-zip (x ∷ xs) f h k = (f x h.0 k.0, All-zip xs f h.1 k.1)

  pub total-cong : (f g : A → ℕ) (xs : List A) → All (λ x. f x ≡ g x) xs → total f xs ≡ total g xs
  total-cong f g [] h = refl
  total-cong f g (x ∷ xs) h = omega (arith, h.0, total-cong f g xs h.1)

  pub total_ext : (f g : A → ℕ) (xs : List A) → ((x : A) → f x ≡ g x) → total f xs ≡ total g xs
  total_ext f g xs h = total-cong f g xs (All-All xs h)

  pub total_le : (f g : A → ℕ) (xs : List A) → All (λ x. f x ≤ g x) xs → total f xs ≤ total g xs
  total_le f g [] h = omega arith
  total_le f g (x ∷ xs) h = omega (arith, h.0, total_le f g xs h.1)

  pub total-one : (f : A → ℕ) (xs : List A) → All (λ x. f x ≡ 1) xs → total f xs ≡ length xs
  total-one f xs h = total-cong f (λ _. 1) xs h ∙ total-length xs

  pub total-none : (f : A → ℕ) (xs : List A) → All (λ x. f x ≡ 0) xs → total f xs ≡ 0
  total-none f [] h = refl
  total-none f (x ∷ xs) h = omega (arith, h.0, total-none f xs h.1)

module _ {ℓ κ} {A : Type ℓ} {B : Type κ} where
  pub total-map :
      (f : B → ℕ) (g : A → B) (xs : List A) → total f (map g xs) ≡ total (λ x. f (g x)) xs
  total-map f g [] = refl
  total-map f g (x ∷ xs) = ap (λ n. f (g x) + n) (total-map f g xs)

  pub total-swap :
      (h : A → B → ℕ) (xs : List A) (ys : List B)
      → total (λ x. total (h x) ys) xs ≡ total (λ y. total (λ x. h x y) xs) ys
  total-swap h [] ys = sym (total-none (λ y. 0) ys (All-All ys (λ y. refl)))
  total-swap h (x ∷ xs) ys =
      ap (λ n. total (h x) ys + n) (total-swap h xs ys)
      ∙ sym (total-add (h x) (λ y. total (λ x. h x y) xs) ys)

  pub length-map : (g : A → B) (xs : List A) → length (map g xs) ≡ length xs
  length-map g [] = refl
  length-map g (x ∷ xs) = ap suc (length-map g xs)

  pub All-over_map {μ} :
      (P : B → Type μ) (g : A → B) (xs : List A) → All (λ x. P (g x)) xs → All P (map g xs)
  All-over_map P g [] h = tt
  All-over_map P g (x ∷ xs) h = (h.0, All-over_map P g xs h.1)

  pub All-under_map {μ} :
      (P : B → Type μ) (g : A → B) (xs : List A) → All P (map g xs) → All (λ x. P (g x)) xs
  All-under_map P g [] h = tt
  All-under_map P g (x ∷ xs) h = (h.0, All-under_map P g xs h.1)
