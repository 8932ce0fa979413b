-- ===== src/Pairs/Arms.antt =====
-- r2_paired_schedule.py: what `_first_condition_assignments` gives to the questions of each database.
use omni_benchmark.Prelude.{
  leb→le, leb, ℕ, zero, suc, ◌+◌, ◌/◌, ◌≤◌, ◌≡◌, refl, ap, sym, ◌∙◌, String, List, [], ◌∷◌, length,
  total, total-sort_by, total-length, arith, Bool-cases, inl, inr, if◌then◌else◌,
}
use omni_benchmark.Prelude.Text.{occurrences, member}
use omni_benchmark.Split.Select.Ids.{absent, present}
use omni_benchmark.Pairs.{Hashing, control, treatment, is_arm, arms, assigned, ordered_by, pair_key}
use omni_benchmark.Pairs.Extras.{remainder}

total-arms :
    (f : String → ℕ) (c : ℕ) (ids : List String) → total (λ e. f e.0) (arms c ids) ≡ total f ids
unfolding arms
total-arms f c [] = refl
total-arms f zero (s ∷ ids) = ap (λ n. f s + n) (total-arms f zero ids)
total-arms f (suc c) (s ∷ ids) = ap (λ n. f s + n) (total-arms f c ids)

-- The first `c` questions begin with the control, the others with the treatment.
arms-counts :
    (c : ℕ) (ids : List String)
    → c ≤ length ids
    → (total (λ e. is_arm control e.1) (arms c ids) ≡ c)
      × (total (λ e. is_arm treatment e.1) (arms c ids) + c ≡ length ids)
unfolding arms
arms-counts zero [] h = (refl, refl)
arms-counts (suc c) [] h = absurd (omega (arith, h))
arms-counts zero (s ∷ ids) h =
    let k = arms-counts zero ids (omega arith) in (omega (arith, k.0), omega (arith, k.1))
arms-counts (suc c) (s ∷ ids) h =
    let k = arms-counts c ids (omega (arith, h)) in (omega (arith, k.0), omega (arith, k.1))

marked :
    (s : String) (extra : List String)
    → occurrences s extra ≤ 1
    → (if member s extra then 1 else 0) ≡ occurrences s extra
marked s extra h = elim (Bool-cases (leb 1 (occurrences s extra))) [
  | inl e ↦
      let here = leb→le 1 (occurrences s extra) e in
      rw (present s extra here) (omega (arith, here, h))
  | inr e ↦
      let away : occurrences s extra ≡ 0 = ground (arith, e) in rw (absent s extra away) (sym away)
]

module _ (k : Hashing) (extra : List String) where
  -- How many questions of a database begin with the control.
  abbrev pub control_count : String × List String → ℕ
  control_count g = length g.1 / 2 + occurrences g.0 extra

  abbrev ordered_ids : String × List String → List String
  ordered_ids g = ordered_by k (λ s. pair_key k "first-arm" (g.0 ∷ s ∷ [])) g.1

  ordered_length : (g : String × List String) → length (ordered_ids g) ≡ length g.1
  ordered_length g = omega (
    arith,
    total-length (ordered_ids g),
    total-length g.1,
    total-sort_by (λ (s : String). 1) _ g.1,
  )

  assigned-arms :
      (g : String × List String)
      → occurrences g.0 extra ≤ 1
      → assigned k extra g ≡ arms (control_count g) (ordered_ids g)
  unfolding assigned
  assigned-arms g h = rw (marked g.0 extra h, ordered_length g) refl

  pub assigned-counts :
      (g : String × List String)
      → occurrences g.0 extra ≤ remainder g
      → (total (λ e. is_arm control e.1) (assigned k extra g) ≡ control_count g)
        × (total (λ e. is_arm treatment e.1) (assigned k extra g) + control_count g ≡ length g.1)
  assigned-counts g h =
      let counts =
        arms-counts (control_count g) (ordered_ids g) (omega (arith, ordered_length g, h)) in
      rw (assigned-arms g (omega (arith, h))) (counts.0, counts.1 ∙ ordered_length g)

  pub total-assigned :
      (f : String → ℕ) (g : String × List String)
      → occurrences g.0 extra ≤ 1
      → total (λ e. f e.0) (assigned k extra g) ≡ total f g.1
  total-assigned f g h =
      rw (assigned-arms g h)
        (total-arms f (control_count g) (ordered_ids g) ∙ total-sort_by f _ g.1)
