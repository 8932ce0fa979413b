-- ===== src/Split/Select/Picks.antt =====
-- split.py: how many identifiers each loop of `_select_test_ids` adds, and from where.
use omni_benchmark.Split.Apportion.Bumps.{total-sharing, IsDict, sharing, hit}
use omni_benchmark.Prelude.{
  All-over_map, length-map, ℕ, ◌+◌, ◌≤◌, ◌<◌, ◌==◌, ◌≡◌, refl, ap, sym, ◌∙◌, String, Bool, true,
  false, not, Option, some, List, [], ◌∷◌, ◌++◌, length, length-append, length-take, take, keep,
  total, total-append, total-map, total-keep, total-take, total-sort_by, total-length, All, All-zip,
  All-keep, arith, Bool-cases, inl, inr, sort_by,
}
use omni_benchmark.Prelude.Text.{hits, occurrences}
use omni_benchmark.Split.{Question}
use omni_benchmark.Split.Apportion.{Counts, share}
use omni_benchmark.Split.Apportion.Quotas.{allocate_proportionally-IsRounded}
use omni_benchmark.Split.Select.{
  chain, add_ids, level_name, at_level, stratum, stratum_counts, keyed_before, picked,
  select_strata, select_group,
}
use omni_benchmark.Split.Select.Ids.{add_ids-append}
use omni_benchmark.Split.Select.Groups.{seen, occurrences-ids_of}

keep_nonzero :
    {K : Type 0} (entries : List (K × ℕ))
    → total share (keep (λ e. not (e.1 == 0)) entries) ≡ total share entries
keep_nonzero [] = refl
keep_nonzero (e ∷ rest) = ground (arith, keep_nonzero rest)

IsDict-keep :
    {K : Type 0} (name : K → String) (test : K × ℕ → Bool) (entries : Counts name)
    → IsDict name entries
    → IsDict name (keep test entries)
IsDict-keep name test [] d = tt
IsDict-keep name test (e ∷ rest) d = elim (Bool-cases (test e)) [
  | inl h ↦ rw h (All-keep (λ y. hit name e y ≡ 0) test rest d.0, IsDict-keep name test rest d.1)
  | inr h ↦ rw h (IsDict-keep name test rest d.1)
]

abbrev both_strata : List Question → List (Bool × ℕ)
both_strata questions =
    (false, length (stratum false questions)) ∷ (true, length (stratum true questions)) ∷ []

abbrev is_used : Bool × ℕ → Bool
is_used e = not (e.1 == 0)

strata-total :
    (f : Question → ℕ) (questions : List Question)
    → total f (stratum true questions) + total f (stratum false questions) ≡ total f questions
unfolding stratum
strata-total f questions = total-keep f (at_level true) questions

stratum_counts-total :
    (questions : List Question) → total share (stratum_counts questions) ≡ length questions
unfolding stratum_counts
stratum_counts-total questions = omega (
  arith,
  keep_nonzero (both_strata questions),
  strata-total (λ _. 1) questions,
  total-length (stratum true questions),
  total-length (stratum false questions),
  total-length questions,
)

stratum_counts-IsDict : (questions : List Question) → IsDict level_name (stratum_counts questions)
unfolding stratum_counts
stratum_counts-IsDict questions =
    IsDict-keep level_name is_used (both_strata questions) ((refl, tt), (tt, tt))

stratum_counts-All :
    (questions : List Question)
    → All (λ e. e.1 ≡ length (stratum e.0 questions)) (stratum_counts questions)
unfolding stratum_counts
stratum_counts-All questions =
    All-keep (λ e. e.1 ≡ length (stratum e.0 questions)) is_used (both_strata questions)
      (refl, (refl, tt))

-- A step adds `n` identifiers, of the questions that `f` counts.
pub record Adds (n : ℕ) (f : String → ℕ) (selected : List String) (r : Option (List String))
    : Type 0 where
  pub ids : List String
  pub result : r ≡ some (add_ids ids selected)
  pub size : length ids ≡ n
  pub from : (s : String) → occurrences s ids ≤ f s

module _ (sha256 : String → String) (seed : String) where
  -- All that the loop over the strata picks.
  picks : List Question → List (Bool × ℕ) → List String
  picks questions [] = []
  picks questions (entry ∷ rest) = picked sha256 seed questions entry ++ picks questions rest

  select_strata-add_ids :
      (questions : List Question) (entries : List (Bool × ℕ)) (selected : List String)
      → select_strata sha256 seed questions entries selected
        ≡ add_ids (picks questions entries) selected
  unfolding select_strata picks add_ids
  select_strata-add_ids questions [] selected = refl
  select_strata-add_ids questions (entry ∷ rest) selected =
      select_strata-add_ids questions rest _
      ∙ sym (add_ids-append (picked sha256 seed questions entry) (picks questions rest) selected)

  picked-length :
      (questions : List Question) (entry : Bool × ℕ)
      → entry.1 ≤ length (stratum entry.0 questions)
      → length (picked sha256 seed questions entry) ≡ entry.1
  unfolding picked
  picked-length questions entry h =
      let ordered = sort_by (keyed_before sha256 seed) (stratum entry.0 questions) in
      omega (
        arith,
        h,
        length-map (λ (q : Question). q.instance_id) (take entry.1 ordered),
        length-take entry.1 ordered,
        total-length ordered,
        total-sort_by (λ _. 1) (keyed_before sha256 seed) (stratum entry.0 questions),
        total-length (stratum entry.0 questions),
      )

  picked-occurrences :
      (s : String) (questions : List Question) (entry : Bool × ℕ)
      → occurrences s (picked sha256 seed questions entry)
        ≤ total (seen s) (stratum entry.0 questions)
  unfolding picked
  picked-occurrences s questions entry =
      let ordered = sort_by (keyed_before sha256 seed) (stratum entry.0 questions) in
      omega (
        arith,
        occurrences-ids_of s (take entry.1 ordered),
        total-take (seen s) entry.1 ordered,
        total-sort_by (seen s) (keyed_before sha256 seed) (stratum entry.0 questions),
      )

  picks-length :
      (questions : List Question) (entries : List (Bool × ℕ))
      → All (λ e. e.1 ≤ length (stratum e.0 questions)) entries
      → length (picks questions entries) ≡ total share entries
  unfolding picks
  picks-length questions [] h = refl
  picks-length questions (e ∷ rest) h = omega (
    arith,
    length-append (picked sha256 seed questions e) (picks questions rest),
    picked-length questions e h.0,
    picks-length questions rest h.1,
  )

  picks-occurrences :
      (s : String) (questions : List Question) (entries : List (Bool × ℕ))
      → occurrences s (picks questions entries)
        ≤ total (λ e. total (seen s) (stratum e.0 questions)) entries
  unfolding picks
  picks-occurrences s questions [] = omega arith
  picks-occurrences s questions (e ∷ rest) = omega (
    arith,
    total-append (hits s) (picked sha256 seed questions e) (picks questions rest),
    picked-occurrences s questions e,
    picks-occurrences s questions rest,
  )

  strata_seen :
      (s : String) (questions : List Question)
      → total (λ e. total (seen s) (stratum e.0 questions)) (stratum_counts questions)
        ≤ total (seen s) questions
  unfolding stratum_counts
  strata_seen s questions = omega (
    arith,
    total-keep (λ (e : Bool × ℕ). total (seen s) (stratum e.0 questions)) is_used
        (both_strata questions),
    strata-total (seen s) questions,
  )

  pub select_group-Adds :
      (questions : List Question) (n : ℕ) (selected : List String)
      → n ≤ length questions
      → 0 < length questions
      → Adds n
          (λ s. total (seen s) questions)
          selected
          (select_group sha256 seed questions n selected)
  unfolding select_group
  select_group-Adds questions n selected h p =
      let counts = stratum_counts questions in
      let whole_size = stratum_counts-total questions in
      let shared =
        allocate_proportionally-IsRounded level_name counts n (stratum_counts-IsDict questions)
          (omega (arith, whole_size, h)) (omega (arith, whole_size, p)) in
      let given = sharing level_name shared.0 counts in
      record {
        ids = picks questions given;
        result =
            ap (λ r. chain r (λ shares. some (select_strata sha256 seed questions shares selected)))
              shared.1
            ∙ ap some (select_strata-add_ids questions given selected);
        size =
            picks-length questions given (
              All-over_map _ _ counts (
                All-zip counts (λ e r k. omega (arith, r.within, k)) shared.3
                  (stratum_counts-All questions)))
            ∙ total-sharing level_name shared.0 counts
            ∙ shared.2;
        from = λ s. omega (
          arith,
          picks-occurrences s questions given,
          strata_seen s questions,
          total-map (λ (e : Bool × ℕ). total (seen s) (stratum e.0 questions))
              (λ (e : Bool × ℕ). (e.0, shared.0 e)) counts,
        );
      }
