-- ===== src/Results/Validation.antt =====
-- src/omni_benchmark/sealed_results.py: `_validated_matrix`.
use text.Mathlib.Text.{◌==◌ as str_eq}
use omni_benchmark.Prelude.{
  ℕ, String, Bool, true, false, not, ◌&&◌, ◌||◌, Option, none, some, List, [], ◌∷◌, ◌==◌, all, any,
  is_empty, if◌then◌else◌,
}
use omni_benchmark.Prelude.Text.{member}
use omni_benchmark.Sealed.{ScoringMode, FailureClass}
use omni_benchmark.Results.{
  ModeAttemptScore, scored, unscorable, SealedScoredAttempt, conditions, repetitions,
  SealedResultError, duplicate_attempt, identity_invalid, digest_invalid, duplicate_coordinates,
  incomplete_matrix, scoreability_varies, Checked, ok, refused, mode_score, validated_disposition,
  is_digest, Row, Matrix, has_key, row_of, put,
}

pub record Validation : Type 0 where
  pub matrix : Matrix
  pub seen_attempts : List String

-- `attempt.condition in CONDITIONS` and the other tests of an identity.
unfoldable pub has_identity : SealedScoredAttempt → Bool
has_identity attempt =
    member attempt.condition conditions
    && any (λ r. attempt.repetition == r) repetitions
    && not (str_eq attempt.question_key "")
    && member attempt.generation_outcome ("answered" ∷ "refused" ∷ "errored" ∷ [])

-- `if test: raise error` for each test, and then the error of what follows.
unfoldable pub first_error :
    List (Bool × SealedResultError) → Option SealedResultError → Option SealedResultError
first_error [] last = last
first_error ((test, error) ∷ tests) last =
    let later = first_error tests last in if test then some error else later

-- What the body of the loop of `_validated_matrix` tests before it changes the matrix.
unfoldable pub guards : Validation → SealedScoredAttempt → List (Bool × SealedResultError)
unfolding has_identity is_digest row_of
guards validation attempt =
    let key : String × ℕ = (attempt.condition, attempt.repetition) in
    (member attempt.attempt_id validation.seen_attempts, duplicate_attempt)
    ∷ (not (has_identity attempt), identity_invalid)
    ∷ (not (is_digest attempt.generation_sha256), digest_invalid)
    ∷ (not (is_digest attempt.generation_record_sha256), digest_invalid)
    ∷ (has_key key (row_of attempt.question_key validation.matrix), duplicate_coordinates)
    ∷ []

-- What the body of the loop raises, if anything.
unfoldable pub refusal : ScoringMode → Validation → SealedScoredAttempt → Option SealedResultError
unfolding guards validated_disposition first_error
refusal mode validation attempt =
    first_error (guards validation attempt) (validated_disposition mode (mode_score mode attempt))

unfoldable pub accept : Option SealedResultError → Validation → Checked Validation
accept none validation = ok validation
accept (some error) validation = refused error

unfoldable pub enter : Validation → SealedScoredAttempt → Validation
unfolding put
enter validation attempt = record {
  matrix =
      put attempt.question_key ((attempt.condition, attempt.repetition), attempt) validation.matrix;
  seen_attempts = attempt.attempt_id ∷ validation.seen_attempts;
}

-- The body of the loop: it leaves no trace of an attempt where it raises.
unfoldable pub validate_attempt :
    ScoringMode → Validation → SealedScoredAttempt → Checked Validation
unfolding accept refusal enter
validate_attempt mode validation attempt =
    accept (refusal mode validation attempt) (enter validation attempt)

unfoldable pub validate_attempts :
    ScoringMode → Validation → List SealedScoredAttempt → Checked Validation
unfolding validate_attempt
validate_attempts mode validation [] = ok validation
validate_attempts mode validation (attempt ∷ attempts) =
    elim (validate_attempt mode validation attempt) [
      | ok next ↦ validate_attempts mode next attempts
      | refused error ↦ refused error
    ]

-- `set(row) == expected_coordinates`
abbrev pub is_complete : Row → Bool
is_complete row =
    all (λ c. all (λ r. has_key (c, r) row) repetitions) conditions
    && all (λ entry. member entry.0.0 conditions && any (λ r. entry.0.1 == r) repetitions) row

-- `_mode_score(item, mode).unscorable_failure`
abbrev pub unscorable_failure : ModeAttemptScore → Option FailureClass
unscorable_failure (scored result) = none
unscorable_failure (unscorable failure) = some failure

unfoldable pub failure_discrete : Discrete (Option FailureClass)
failure_discrete = hlevel

unfoldable pub holds : {A : Type 0} → Dec A → Bool
holds (yes p) = true
holds (no p) = false

-- `len(dispositions) == 1`
unfoldable pub is_fixed : ScoringMode → Row → Bool
unfolding failure_discrete holds
is_fixed mode [] = false
is_fixed mode (entry ∷ row) =
    let first = unscorable_failure (mode_score mode entry.1) in
    all (λ e. holds (failure_discrete first (unscorable_failure (mode_score mode e.1)))) row

unfoldable pub check_matrix : ScoringMode → Matrix → Checked Matrix
unfolding is_fixed
check_matrix mode matrix =
    if is_empty matrix || any (λ row. not (is_complete row.1)) matrix
    then refused incomplete_matrix
    else if any (λ row. not (is_fixed mode row.1)) matrix
    then refused scoreability_varies
    else ok matrix

unfoldable pub validated_matrix : ScoringMode → List SealedScoredAttempt → Checked Matrix
unfolding validate_attempts check_matrix
validated_matrix mode attempts =
    elim (validate_attempts mode (record { matrix = []; seen_attempts = [] }) attempts) [
      | ok validation ↦ check_matrix mode validation.matrix
      | refused error ↦ refused error
    ]
