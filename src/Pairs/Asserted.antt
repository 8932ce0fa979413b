-- ===== src/Pairs/Asserted.antt =====
-- r2_paired_schedule.py: which assertions of `_assert_schedule_invariants` can fail.
use omni_benchmark.Prelude.{
  ◌*◌, ◌/◌, ◌%◌, ◌≤◌, ◌≡◌, refl, String, Bool, true, false, not, ◌||◌, ◌==◌, List, [], ◌∷◌, length,
  map, any, total, is_empty, All, arith, ◌⊎◌, inl, inr,
}
use omni_benchmark.Prelude.Text.{occurrences, hits_self}
use omni_benchmark.Action.{Result, ok, raise, raise_if, raise_if_rule}
use omni_benchmark.Schedule.{is_distinct}
use omni_benchmark.Split.Select.Ids.{absent}
use omni_benchmark.Pairs.{
  Hashing, control, treatment, ByDatabase, Building, PairError, identity_collision,
}
use omni_benchmark.Pairs.Build.{
  first_count, is_unbalanced, are_adjacent, assert_schedule_invariants, build_pairs,
}
use omni_benchmark.Pairs.Extras.{IsKeyedOnce}
use omni_benchmark.Pairs.Balanced.{question_count}
use omni_benchmark.Pairs.Complete.{question_occurrences, IsComplete, with_conditions-IsComplete}

once-is_distinct :
    (ids : List String) → ((s : String) → occurrences s ids ≤ 1) → is_distinct ids ≡ true
unfolding is_distinct
once-is_distinct [] once = refl
once-is_distinct (s ∷ ids) once =
    rw
      (
        absent s ids (omega (arith, once s, hits_self s)),
        once-is_distinct ids (λ t. omega (arith, once t)),
      )
      refl

any-none {ℓ} :
    {A : Type ℓ} (p : A → Bool) (xs : List A) → ((x : A) → p x ≡ false) → any p xs ≡ false
any-none p [] h = refl
any-none p (x ∷ xs) h = rw (h x, any-none p xs h) refl

any_empty :
    (groups : ByDatabase)
    → All (λ g. is_empty g.1 ≡ false) groups
    → any (λ g. is_empty g.1) groups ≡ false
any_empty [] h = refl
any_empty (g ∷ groups) h = rw (h.0, any_empty groups h.1) refl

passes {κ} :
    (P : Result PairError Building → Type κ) (t : Bool) (error : PairError)
    (rest : Result PairError Building)
    → t ≡ false
    → P rest
    → P (raise_if t error rest)
unfolding raise_if
passes P t error rest e h = rw e h

module _ (k : Hashing) (groups : ByDatabase) (once : IsKeyedOnce groups)
    (questions_once : (s : String) → question_occurrences s groups ≤ 1) where
  -- The schedule is complete, or two of its identifiers have the same digest.
  abbrev pub Outcome : Result PairError Building → Type 0
  Outcome r =
      (r ≡ raise identity_collision)
      ⊎ ((t : Building) × (r ≡ ok t) × IsComplete k groups once questions_once t)

  assert-Outcome :
      (t : Building)
      → question_count groups % 2 ≡ 0
      → IsComplete k groups once questions_once t
      → Outcome (assert_schedule_invariants (question_count groups) t)
  unfolding assert_schedule_invariants
  assert-Outcome t even (count, each, placed, half, close, paired) =
      let counted : (not (length t.pairs == question_count groups)
            || not (length t.attempts == question_count groups * 2))
          ≡ false =
        ground (arith, count, paired.0) in
      let different : not (is_distinct (map (λ p. p.instance_id) t.pairs)) ≡ false =
        rw
          (once-is_distinct (map (λ p. p.instance_id) t.pairs)
            (λ s. omega (arith, each s, questions_once s)))
          refl in
      let global : (not (first_count control t.pairs == question_count groups / 2)
            || not (first_count treatment t.pairs == question_count groups / 2))
          ≡ false =
        ground (arith, half control, half treatment) in
      let near : any (is_unbalanced t.pairs) t.pairs ≡ false =
        any-none (is_unbalanced t.pairs) t.pairs
          (λ p. let h = close p.database in ground (arith, h.0, h.1)) in
      let adjacent : not (are_adjacent t.pairs t.attempts) ≡ false = rw (paired.1) refl in
      passes Outcome _ _ _ counted (
        passes Outcome _ _ _ different (
          raise_if_rule Outcome _ _ _ (inl refl) (λ _. passes Outcome _ _ _ global (
            passes Outcome _ _ _ near (
              passes Outcome _ _ _ adjacent
                (inr (t, refl, (count, each, placed, half, close, paired))))))))

  -- If the databases are different and each has a question, no question stands in them twice and the
  -- number of questions is even, then with as many pairs expected as there are questions,
  -- `build_r2_paired_schedule`, once it has its groups, raises the collision of identities or returns
  -- a complete schedule; it raises no other error.
  pub build_pairs-Outcome :
      question_count groups % 2 ≡ 0
      → All (λ g. is_empty g.1 ≡ false) groups
      → Outcome (build_pairs k groups (question_count groups))
  unfolding build_pairs
  build_pairs-Outcome even filled =
      let (t, e, c) = with_conditions-IsComplete k groups once questions_once even in
      let same : not
            (total (λ (g : String × List String). length g.1) groups == question_count groups)
          ≡ false =
        ground arith in
      passes Outcome _ _ _ (any_empty groups filled)
        (passes Outcome _ _ _ same (rw e (assert-Outcome t even c)))
