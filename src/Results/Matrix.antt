-- ===== src/Results/Matrix.antt =====
-- What `_validated_matrix` has checked of each row, and what the reports read from it.
use text.Mathlib.Text.{◌==◌ as str_eq}
use mathlib.Core.Path.{subst}
use omni_benchmark.Prelude.{
  refl, ap, ℕ, ◌≡◌, Bool, true, false, not, String, Option, none, some, List, [], ◌∷◌, any, all,
  All, All-append, arith, ◌⊎◌, Bool-cases, inl, inr,
}
use omni_benchmark.Sealed.{ScoringMode}
use omni_benchmark.Results.{
  SealedScoredAttempt, mode_score, Row, Matrix, Checked, ok, refused, has_key, same_key, put,
  validated_disposition, SealedResultError,
}
use omni_benchmark.Results.Validation.{
  Validation, first_error, guards, accept, refusal, enter, validate_attempt, validate_attempts,
}
use omni_benchmark.Results.Report.{cell}

module _ {A : Type 0} where
  pub all-All : (p : A → Bool) (xs : List A) → all p xs ≡ true → All (λ x. p x ≡ true) xs
  all-All p [] h = tt
  all-All p (x ∷ xs) h = (ground (arith, h), all-All p xs (ground (arith, h)))

  pub any-All :
      (p : A → Bool) (xs : List A) → any (λ x. not (p x)) xs ≡ false → All (λ x. p x ≡ true) xs
  any-All p [] h = tt
  any-All p (x ∷ xs) h = (ground (arith, h), any-All p xs (ground (arith, h)))

  value_or : A → Checked A → A
  value_or default (ok x) = x
  value_or default (refused error) = default

  pub ok-injective : (x y : A) → ok x ≡ ok y → x ≡ y
  unfolding value_or
  ok-injective x y e = ap (value_or x) e

  pub refused≢ok : (error : SealedResultError) (x : A) → refused error ≡ ok x → ⊥
  refused≢ok error x e = ground (arith, e)

  pub Checked-cases :
      (c : Checked A) → ((error : SealedResultError) × (c ≡ refused error)) ⊎ ((x : A) × (c ≡ ok x))
  Checked-cases (ok x) = inr (x, refl)
  Checked-cases (refused error) = inl (error, refl)

first_error-none :
    (tests : List (Bool × SealedResultError)) (last : Option SealedResultError)
    → first_error tests last ≡ none
    → last ≡ none
unfolding first_error
first_error-none [] last e = e
first_error-none ((true, error) ∷ tests) last e = ground (arith, e)
first_error-none ((false, error) ∷ tests) last e = first_error-none tests last e

accept-ok :
    (error : Option SealedResultError) (validation next : Validation)
    → accept error validation ≡ ok next
    → (error ≡ none) × (validation ≡ next)
unfolding accept
accept-ok none validation next e = (refl, ok-injective validation next e)
accept-ok (some error) validation next e = absurd (refused≢ok error next e)

module _ (P : SealedScoredAttempt → Type 0) where
  abbrev pub AllIn : Row → Type 0
  AllIn row = All (λ entry. P entry.1) row

  pub cell-found :
      (key : String × ℕ) (row : Row)
      → has_key key row ≡ true
      → AllIn row
      → (a : SealedScoredAttempt) × (cell key row ≡ some a) × P a
  unfolding cell
  cell-found key [] h k = ground (arith, h)
  cell-found key (entry ∷ row) h k = elim (Bool-cases (same_key key entry.0)) [
    | inl same ↦ (entry.1, rw (same, cell) refl, k.0)
    | inr other ↦
        let later = cell-found key row (ground (arith, other, h)) k.1 in
        (later.0, rw (other, cell) later.1, later.2)
  ]

  put-AllIn :
      (question : String) (entry : (String × ℕ) × SealedScoredAttempt) (matrix : Matrix)
      → P entry.1
      → All (λ row. AllIn row.1) matrix
      → All (λ row. AllIn row.1) (put question entry matrix)
  unfolding put
  put-AllIn question entry [] p h = ((p, tt), tt)
  put-AllIn question entry (row ∷ matrix) p h = elim (Bool-cases (str_eq question row.0)) [
    | inl same ↦ rw (same, put) (All-append (λ e. P e.1) row.1 (entry ∷ []) h.0 (p, tt), h.1)
    | inr other ↦ rw (other, put) (h.0, put-AllIn question entry matrix p h.1)
  ]

module _ (mode : ScoringMode) where
  abbrev pub IsValid : SealedScoredAttempt → Type 0
  IsValid a = validated_disposition mode (mode_score mode a) ≡ none

  refusal-IsValid :
      (validation : Validation) (a : SealedScoredAttempt)
      → refusal mode validation a ≡ none
      → IsValid a
  unfolding refusal
  refusal-IsValid validation a e =
      first_error-none (guards validation a) (validated_disposition mode (mode_score mode a)) e

  validate_attempt-IsValid :
      (validation next : Validation) (a : SealedScoredAttempt)
      → validate_attempt mode validation a ≡ ok next
      → All (λ row. AllIn IsValid row.1) validation.matrix
      → All (λ row. AllIn IsValid row.1) next.matrix
  unfolding validate_attempt enter
  validate_attempt-IsValid validation next a e h =
      let accepted = accept-ok (refusal mode validation a) (enter validation a) next e in
      subst (λ v. All (λ row. AllIn IsValid row.1) v.matrix) accepted.1
        (put-AllIn IsValid a.question_key ((a.condition, a.repetition), a) validation.matrix
          (refusal-IsValid validation a accepted.0) h)

  pub validate_attempts-IsValid :
      (validation next : Validation) (attempts : List SealedScoredAttempt)
      → validate_attempts mode validation attempts ≡ ok next
      → All (λ row. AllIn IsValid row.1) validation.matrix
      → All (λ row. AllIn IsValid row.1) next.matrix
  unfolding validate_attempts
  validate_attempts-IsValid validation next [] e h =
      subst (λ v. All (λ row. AllIn IsValid row.1) v.matrix) (ok-injective validation next e) h
  validate_attempts-IsValid validation next (a ∷ attempts) e h =
      elim (Checked-cases (validate_attempt mode validation a)) [
        | inl (error, wrong) ↦ absurd (refused≢ok error next (rw (wrong, validate_attempts) at e))
        | inr (middle, right) ↦
            validate_attempts-IsValid middle next attempts (rw (right, validate_attempts) at e)
              (validate_attempt-IsValid validation middle a right h)
      ]
