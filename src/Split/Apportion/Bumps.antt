-- ===== src/Split/Apportion/Bumps.antt =====
-- split.py: `allocated[key] += 1` in terms of how often a key is among those that are bumped.
use omni_benchmark.Prelude.{
  All-zip, total-one, ℕ, ◌+◌, ◌≡◌, refl, ap, ◌∙◌, String, true, [], ◌∷◌, map, total, length, All,
  ◌⊎◌, inl, inr, if◌then◌else◌, arith, Bool-cases, total-cong, total-swap, All-All, All-map,
}
use text.Mathlib.Text.{◌==◌ as str_eq}
use text.Mathlib.TextEquality.{eq_iff}
use text.Mathlib.TextPositions.{eq_refl}
use omni_benchmark.Prelude.Text.{str_eq-sym}
use omni_benchmark.Split.Apportion.{Counts, bump, bump_all, share}

module _ {K : Type 0} (name : K → String) where
  -- Whether two entries have one key.
  abbrev pub hit : K × ℕ → K × ℕ → ℕ
  hit x y = if str_eq (name x.0) (name y.0) then 1 else 0

  abbrev pub IsNew : K × ℕ → Counts name → Type 0
  IsNew x entries = All (λ y. hit x y ≡ 0) entries

  -- The keys of a dict: no two of them have one name.
  abbrev pub IsDict : Counts name → Type 0
  IsDict [] = Unit
  IsDict (x ∷ rest) = IsNew x rest × IsDict rest

  -- The entries with other shares.
  abbrev pub sharing : (K × ℕ → ℕ) → Counts name → Counts name
  sharing f entries = map (λ entry. (entry.0, f entry)) entries

  sharing-cong :
      (f g : K × ℕ → ℕ) (entries : Counts name)
      → All (λ x. f x ≡ g x) entries
      → sharing f entries ≡ sharing g entries
  sharing-cong f g [] h = refl
  sharing-cong f g (x ∷ rest) h = λ i. (x.0, h.0 i) ∷ sharing-cong f g rest h.1 i

  pub hit-sym : (x y : K × ℕ) → hit x y ≡ hit y x
  hit-sym x y = ap (λ b. if b then 1 else 0) (str_eq-sym (name x.0) (name y.0))

  hit_same : (x y z : K × ℕ) → str_eq (name x.0) (name y.0) ≡ true → hit x z ≡ hit y z
  hit_same x y z h = ap (λ s. if str_eq s (name z.0) then 1 else 0) ((eq_iff _ _).0 h)

  cons-cong :
      (k : K) {m n : ℕ} {xs ys : Counts name}
      → m ≡ n
      → xs ≡ ys
      → ◌≡◌ {A = Counts name} ((k, m) ∷ xs) ((k, n) ∷ ys)
  cons-cong k p q = λ i. (k, p i) ∷ q i

  bump-sharing :
      (f : K × ℕ → ℕ) (x : K × ℕ) (entries : Counts name)
      → IsDict entries
      → bump name x.0 (sharing f entries) ≡ sharing (λ y. f y + hit x y) entries
  unfolding bump
  bump-sharing f x [] d = refl
  bump-sharing f x (y ∷ rest) d = elim (Bool-cases (str_eq (name x.0) (name y.0))) [
    | inl e ↦ rw e (
        cons-cong y.0 (omega arith)
          (sharing-cong f _ rest (All-map rest (λ z h. omega (arith, hit_same x y z e, h)) d.0)))
    | inr e ↦ rw e (cons-cong y.0 (omega arith) (bump-sharing f x rest d.1))
  ]

  -- How often the key of an entry is among the keys of others.
  abbrev pub times : Counts name → K × ℕ → ℕ
  times ranked y = total (λ x. hit x y) ranked

  pub bump_all-sharing :
      (f : K × ℕ → ℕ) (ranked entries : Counts name)
      → IsDict entries
      → bump_all name ranked (sharing f entries) ≡ sharing (λ y. f y + times ranked y) entries
  unfolding bump_all
  bump_all-sharing f [] entries d = sharing-cong f _ entries (All-All entries (λ y. omega arith))
  bump_all-sharing f (x ∷ ranked) entries d =
      ap (bump_all name ranked) (bump-sharing f x entries d)
      ∙ bump_all-sharing (λ y. f y + hit x y) ranked entries d
      ∙ sharing-cong _ _ entries (All-All entries (λ y. omega arith))

  new_times : (y : K × ℕ) (rest : Counts name) → IsNew y rest → times rest y ≡ 0
  new_times y [] h = refl
  new_times y (x ∷ rest) h = omega (arith, h.0, hit-sym x y, new_times y rest h.1)

  hit_refl : (x : K × ℕ) → hit x x ≡ 1
  hit_refl x = ap (λ b. if b then 1 else 0) (eq_refl (name x.0))

  -- The key of each entry of a dict is there once.
  pub times-once : (entries : Counts name) → IsDict entries → All (λ y. times entries y ≡ 1) entries
  times-once [] d = tt
  times-once (x ∷ rest) d = (
    omega (arith, hit_refl x, new_times x rest d.0),
    All-zip rest (λ y h k. omega (arith, h, k)) d.0 (times-once rest d.1),
  )

  -- Entries of a dict that have one key are one entry.
  pub hit-agrees :
      (f : K × ℕ → ℕ) (entries : Counts name)
      → IsDict entries
      → All (λ y. All (λ x. (hit x y ≡ 0) ⊎ (f x ≡ f y)) entries) entries
  hit-agrees f [] d = tt
  hit-agrees f (x ∷ rest) d = (
    (inr refl, All-map rest (λ y h. inl (hit-sym y x ∙ h)) d.0),
    All-zip rest (λ y h k. (inl h, k)) d.0 (hit-agrees f rest d.1),
  )

  pub total-sharing :
      (f : K × ℕ → ℕ) (entries : Counts name) → total share (sharing f entries) ≡ total f entries
  total-sharing f [] = refl
  total-sharing f (x ∷ rest) = omega (arith, total-sharing f rest)

  -- All keys that are bumped are keys of the dict, so each is counted.
  pub total-times :
      (ranked entries : Counts name)
      → All (λ x. times entries x ≡ 1) ranked
      → total (times ranked) entries ≡ length ranked
  total-times ranked entries h =
      total-swap (λ y x. hit x y) entries ranked
      ∙ total-one _ ranked (
          All-map ranked (λ x k. total-cong _ _ entries (All-All entries (λ y. hit-sym x y)) ∙ k) h)
