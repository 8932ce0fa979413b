-- ===== src/Results/Rows.antt =====
-- The reports on a matrix that `_validated_matrix` has accepted.
use text.Mathlib.Text.{◌==◌ as str_eq}
use text.Mathlib.TextPositions.{eq_refl}
use mathlib.Core.Path.{subst}
use omni_benchmark.Prelude.{
  ℕ, keep, refl, sym, ap, ◌∙◌, suc, ◌≡◌, Bool, true, false, not, ◌||◌, String, some, List, [], ◌∷◌,
  length, any, All, All-map, All-All, All-sort_by, All-zip, arith, Bool-cases, inl, inr, map,
  is_empty, total-length, total-sort_by, length-map,
}
use omni_benchmark.Prelude.Text.{member, text_le}
use omni_benchmark.Sealed.{ScoringMode}
use omni_benchmark.Results.{SealedScoredAttempt, Row, Matrix, ok, conditions, repetitions, row_of}
use omni_benchmark.Results.Validation.{
  Validation, validate_attempts, is_complete, is_fixed, check_matrix, validated_matrix,
}
use omni_benchmark.Results.Report.{scoreable, is_scoreable, joined, rows_of, questions_of}
use omni_benchmark.Results.Sums.{IsSettled, keep-step}
use omni_benchmark.Results.Matrix.{
  any-All, AllIn, IsValid, validate_attempts-IsValid, refused≢ok, ok-injective, Checked-cases,
}
use omni_benchmark.Results.Runs.{HasSingle, HasRuns, row_lem}

or_right : (a b : Bool) → (a || b) ≡ false → b ≡ false
or_right a b e = ground (arith, e)

All-swap :
    {A B : Type 0} (R : A → B → Type 0) (xs : List A) (ys : List B)
    → All (λ x. All (R x) ys) xs
    → All (λ y. All (λ x. R x y) xs) ys
All-swap R [] ys h = All-All ys (λ y. tt)
All-swap R (x ∷ xs) ys h = All-zip ys (λ y p q. (p, q)) h.0 (All-swap R xs ys h.1)

All-self : (xs : List String) → All (λ x. member x xs ≡ true) xs
All-self [] = tt
All-self (x ∷ xs) = (rw (eq_refl x) refl, All-map xs (λ y e. ground (arith, e)) (All-self xs))

row_of-All :
    (P : Row → Type 0) (q : String) (matrix : Matrix)
    → All (λ row. P row.1) matrix
    → member q (map (λ row. row.0) matrix) ≡ true
    → P (row_of q matrix)
unfolding row_of
row_of-All P q [] h e = ground (arith, e)
row_of-All P q (row ∷ matrix) h e = elim (Bool-cases (str_eq q row.0)) [
  | inl same ↦ rw (same, row_of) h.0
  | inr other ↦ rw (other, row_of) (row_of-All P q matrix h.1 (ground (arith, e, other)))
]

module _ (mode : ScoringMode) where
  -- The runs of one repetition, as many of them scored as there are scoreable questions.
  abbrev pub HasRepetition :
      Matrix → String → List String → List (List SealedScoredAttempt) → ℕ → Type 0
  HasRepetition matrix c questions runs r =
      (singles : List (List SealedScoredAttempt)) × (rows_of matrix c (r ∷ []) questions
        ≡ some singles)
      × (scoreable mode (joined mode singles) ≡ length (keep (is_scoreable mode) runs))

  no_rows : (matrix : Matrix) (c : String) (r : ℕ) → HasRepetition matrix c [] [] r
  unfolding rows_of
  no_rows matrix c r = ([], refl, refl)

  more_rows :
      (matrix : Matrix) (c q : String) (questions : List String) (run : List SealedScoredAttempt)
      (runs : List (List SealedScoredAttempt)) (r : ℕ)
      → HasSingle mode (row_of q matrix) c run r
      → HasRepetition matrix c questions runs r
      → HasRepetition matrix c (q ∷ questions) (run ∷ runs) r
  unfolding rows_of
  more_rows matrix c q questions run runs r s l = (
    (s.0 ∷ []) ∷ l.0,
    rw (s.1, l.1, rows_of) refl,
    omega (arith, s.2, l.2, keep-step (is_scoreable mode) run runs),
  )

  rows_lem :
      (matrix : Matrix) (c : String) (questions : List String)
      → All (λ q. HasRuns mode (row_of q matrix) c) questions
      → (runs : List (List SealedScoredAttempt)) × (rows_of matrix c repetitions questions
          ≡ some runs)
        × All (IsSettled mode) runs
        × (length runs ≡ length questions)
        × All (HasRepetition matrix c questions runs) repetitions
  unfolding rows_of
  rows_lem matrix c [] h = ([], refl, tt, refl, All-All repetitions (no_rows matrix c))
  rows_lem matrix c (q ∷ questions) h =
      let first = h.0 in
      let later = rows_lem matrix c questions h.1 in
      (
        first.0 ∷ later.0,
        rw (first.1, later.1, rows_of) refl,
        (first.2, later.2),
        ap suc later.3,
        All-zip repetitions (more_rows matrix c q questions first.0 later.0) first.3 later.4,
      )

  -- What `_validated_matrix` has checked.
  record IsChecked (matrix : Matrix) : Type 0 where
    complete : All (λ row. is_complete row.1 ≡ true) matrix
    fixed : All (λ row. is_fixed mode row.1 ≡ true) matrix
    valid : All (λ row. AllIn (IsValid mode) row.1) matrix

  check_matrix-ok :
      (matrix result : Matrix)
      → check_matrix mode matrix ≡ ok result
      → All (λ row. AllIn (IsValid mode) row.1) matrix
      → IsChecked result
  unfolding check_matrix
  check_matrix-ok matrix result e h =
      let bad_keys = is_empty matrix || any (λ row. not (is_complete row.1)) matrix in
      let bad_scores = any (λ row. not (is_fixed mode row.1)) matrix in
      elim (Bool-cases bad_keys) [
        | inl bad ↦ absurd (refused≢ok _ result (rw (bad, check_matrix) at e))
        | inr keys ↦ elim (Bool-cases bad_scores) [
          | inl bad ↦ absurd (refused≢ok _ result (rw (keys, bad, check_matrix) at e))
          | inr scores ↦
              subst IsChecked (ok-injective matrix result (rw (keys, scores, check_matrix) at e))
                (record {
                  complete =
                      any-All (λ row. is_complete row.1) matrix (or_right (is_empty matrix) _ keys);
                  fixed = any-All (λ row. is_fixed mode row.1) matrix scores;
                  valid = h;
                })
        ]
      ]

  validated_matrix-IsChecked :
      (attempts : List SealedScoredAttempt) (matrix : Matrix)
      → validated_matrix mode attempts ≡ ok matrix
      → IsChecked matrix
  unfolding validated_matrix
  validated_matrix-IsChecked attempts matrix e =
      let empty : Validation = record { matrix = []; seen_attempts = [] } in
      elim (Checked-cases (validate_attempts mode empty attempts)) [
        | inl (error, wrong) ↦ absurd (refused≢ok error matrix (rw (wrong, validated_matrix) at e))
        | inr (validation, right) ↦
            check_matrix-ok validation.matrix matrix (rw (right, validated_matrix) at e)
              (validate_attempts-IsValid mode empty validation attempts right tt)
      ]

  -- The runs of every question under one condition.
  abbrev pub HasRows : Matrix → String → Type 0
  HasRows matrix c =
      (runs : List (List SealedScoredAttempt)) × (rows_of matrix c repetitions (questions_of matrix)
        ≡ some runs)
      × All (IsSettled mode) runs
      × (length runs ≡ length matrix)
      × All (HasRepetition matrix c (questions_of matrix) runs) repetitions

  matrix_lem :
      (matrix : Matrix) (c : String) → All (λ row. HasRuns mode row.1 c) matrix → HasRows matrix c
  unfolding questions_of
  matrix_lem matrix c h =
      let keys = map (λ row. row.0) matrix in
      let found =
        All-map keys (λ q e. row_of-All (λ row. HasRuns mode row c) q matrix h e) (All-self keys) in
      let rows =
        rows_lem matrix c (questions_of matrix)
          (All-sort_by (λ q. HasRuns mode (row_of q matrix) c) text_le keys found) in
      let size =
        rows.3
        ∙ sym (total-length (questions_of matrix))
        ∙ total-sort_by (λ _. 1) text_le keys
        ∙ total-length keys
        ∙ length-map (λ row. row.0) matrix in
      (rows.0, rows.1, rows.2, size, rows.4)

  pub validated_matrix-HasRows :
      (attempts : List SealedScoredAttempt) (matrix : Matrix)
      → validated_matrix mode attempts ≡ ok matrix
      → All (HasRows matrix) conditions
  validated_matrix-HasRows attempts matrix e =
      let checked = validated_matrix-IsChecked attempts matrix e in
      let rows : All (λ row. All (HasRuns mode row.1) conditions) matrix =
        All-zip matrix
          (λ (row : String × Row) (both : (is_complete row.1 ≡ true) × (is_fixed mode row.1 ≡ true))
              (v : AllIn (IsValid mode) row.1).
            row_lem mode row.1 both.0 both.1 v)
          (All-zip matrix (λ row a f. (a, f)) checked.complete checked.fixed) checked.valid in
      All-map conditions (λ c h. matrix_lem matrix c h)
        (All-swap (λ row c. HasRuns mode row.1 c) matrix conditions rows)
