-- ===== src/Pairs/Extras.antt =====
-- r2_paired_schedule.py: which databases have a pair more that begins with the control.
use omni_benchmark.Prelude.Text.{hits, hits_self, occurrences, str_eq-sym}
use omni_benchmark.Prelude.{
  ℕ, ◌+◌, ◌*◌, ◌/◌, ◌%◌, ◌≤◌, ◌<◌, ◌≡◌, refl, ap, ◌∙◌, String, List, [], ◌∷◌, map, length, take,
  drop, keep, total, total-map, total-sort_by, total-length, total-add, total-cong, total_ext,
  total_le, total-swap, length-map, ==_iff, total-take-drop, length-take, All, All-zip, total-take,
  All-All, All-map, arith, Bool-cases, inl, inr, if◌then◌else◌,
}
use omni_benchmark.Pairs.{Hashing, ByDatabase, is_odd, odd_databases}

abbrev pub names : ByDatabase → List String
names groups = map (λ g. g.0) groups

-- No database stands twice.
abbrev pub IsKeyedOnce : ByDatabase → Type 0
IsKeyedOnce groups = (s : String) → occurrences s (names groups) ≤ 1

hits-sym : (s t : String) → hits s t ≡ hits t s
hits-sym s t = ap (λ b. if b then 1 else 0) (str_eq-sym s t)

-- The sum of a weight over the groups of a name.
abbrev pub weight_of : String → (String × List String → ℕ) → ByDatabase → ℕ
weight_of s w groups = total (λ g. hits s g.0 * w g) groups

no_weight :
    (s : String) (w : String × List String → ℕ) (groups : ByDatabase)
    → occurrences s (names groups) ≡ 0
    → weight_of s w groups ≡ 0
no_weight s w [] h = refl
no_weight s w (g ∷ groups) h =
    let here : hits s g.0 ≡ 0 = omega (arith, h) in
    rw here (omega (arith, no_weight s w groups (omega (arith, h))))

each_present : (groups : ByDatabase) → All (λ g. 0 < occurrences g.0 (names groups)) groups
each_present [] = tt
each_present (g ∷ groups) =
    (omega (arith, hits_self g.0), All-map groups (λ x h. omega (arith, h)) (each_present groups))

own_weight :
    (w : String × List String → ℕ) (groups : ByDatabase)
    → IsKeyedOnce groups
    → All (λ g. weight_of g.0 w groups ≡ w g) groups
own_weight w [] once = tt
own_weight w (g ∷ groups) once =
    let alone = no_weight g.0 w groups (omega (arith, once g.0, hits_self g.0)) in
    (
      rw (hits_self g.0) (omega (arith, alone)),
      All-zip groups (λ x e h. other x e (omega (arith, once x.0, h)))
          (own_weight w groups (λ s. omega (arith, once s))) (each_present groups),
    )
  where
    other :
        (x : String × List String)
        → weight_of x.0 w groups ≡ w x
        → hits x.0 g.0 ≡ 0
        → weight_of x.0 w (g ∷ groups) ≡ w x
    other x e h = rw h (omega (arith, e))

-- One for a group with an odd number of questions.
abbrev pub remainder : String × List String → ℕ
remainder g = length g.1 % 2

kept_odd :
    (s : String) (groups : ByDatabase)
    → total (λ g. hits s g.0) (keep (λ g. is_odd (length g.1)) groups)
      ≡ weight_of s remainder groups
kept_odd s [] = refl
kept_odd s (g ∷ groups) = elim (Bool-cases (is_odd (length g.1))) [
  | inl e ↦
      let one : remainder g ≡ 1 = (==_iff (length g.1 % 2) 1).0 e in
      rw (e, one) (omega (arith, kept_odd s groups))
  | inr e ↦
      let none_left : remainder g ≡ 0 = ground (arith, e) in
      rw (e, none_left) (omega (arith, kept_odd s groups))
]

odd_count :
    (groups : ByDatabase) → length (keep (λ g. is_odd (length g.1)) groups) ≡ total remainder groups
odd_count [] = refl
odd_count (g ∷ groups) = ground (arith, odd_count groups)

-- How often the names of the groups stand in a list.
abbrev named : List String → ByDatabase → ℕ
named extra groups = total (λ g. occurrences g.0 extra) groups

named-length :
    (extra : List String) (groups : ByDatabase)
    → IsKeyedOnce groups
    → named extra groups ≤ length extra
named-length extra groups once =
    let each : All (λ e. total (λ g. hits g.0 e) groups ≤ 1) extra = All-All extra (λ e. omega (
      arith,
      once e,
      total-map (hits e) (λ (g : String × List String). g.0) groups,
      total_ext (λ g. hits g.0 e) (λ (g : String × List String). hits e g.0) groups
          (λ g. hits-sym g.0 e),
    )) in
    omega (
      arith,
      total-swap (λ (g : String × List String) e. hits g.0 e) groups extra,
      total_le (λ e. total (λ g. hits g.0 e) groups) (λ e. 1) extra each,
      total-length extra,
    )

module _ (k : Hashing) (groups : ByDatabase) (once : IsKeyedOnce groups) where
  abbrev odd : List String
  odd = odd_databases k groups

  -- The databases that have one more control.
  abbrev pub control_extra : List String
  control_extra = take (length odd / 2) odd

  odd-occurrences : (s : String) → occurrences s odd ≡ weight_of s remainder groups
  unfolding odd_databases
  odd-occurrences s =
      let kept = keep (λ g. is_odd (length g.1)) groups in
      total-sort_by (hits s) _ (map (λ (g : String × List String). g.0) kept)
      ∙ total-map (hits s) (λ g. g.0) kept
      ∙ kept_odd s groups

  pub length-odd : length odd ≡ total remainder groups
  unfolding odd_databases
  length-odd =
      let kept = keep (λ g. is_odd (length g.1)) groups in
      omega (
        arith,
        total-length odd,
        total-sort_by (λ (s : String). 1) _ (map (λ (g : String × List String). g.0) kept),
        total-length (map (λ (g : String × List String). g.0) kept),
        length-map (λ (g : String × List String). g.0) kept,
        odd_count groups,
      )

  pub control_extra-odd : All (λ g. occurrences g.0 control_extra ≤ remainder g) groups
  control_extra-odd =
      All-map groups
        (λ g e. omega (arith, total-take (hits g.0) (length odd / 2) odd, odd-occurrences g.0, e))
        (own_weight remainder groups once)

  -- Half of the databases with an odd number of questions.
  pub control_extra-half : named control_extra groups ≡ length odd / 2
  control_extra-half =
      let rest = drop (length odd / 2) odd in
      let parts =
        total_ext (λ g. occurrences g.0 control_extra + occurrences g.0 rest)
          (λ g. occurrences g.0 odd) groups
          (λ g. total-take-drop (hits g.0) (length odd / 2) odd) in
      let all =
        total-cong (λ (g : String × List String). occurrences g.0 odd) remainder groups
          (All-map groups (λ g e. odd-occurrences g.0 ∙ e) (own_weight remainder groups once)) in
      omega (
        arith,
        parts,
        total-add (λ (g : String × List String). occurrences g.0 control_extra)
            (λ g. occurrences g.0 rest) groups,
        all,
        length-odd,
        named-length control_extra groups once,
        named-length rest groups once,
        length-take (length odd / 2) odd,
        total-take-drop (λ (s : String). 1) (length odd / 2) odd,
        total-length odd,
        total-length rest,
        total-length control_extra,
      )
