-- ===== src/Results.antt =====
-- src/omni_benchmark/sealed_results.py: the matrix of scores behind the published results, with
-- the repetition of an attempt a natural number. A dict is an association list in the order of
-- insertion; a SealedResultError is a value.
pub mod Validation
pub mod Report
pub mod Sums
pub mod Matrix
pub mod Runs
pub mod Rows
pub mod Contrasts
pub mod Inference
pub mod Balance
pub mod Bootstrap
use Prim.Native.Char.{code}
use Prim.Native.String
use text.Mathlib.Text.{◌==◌ as str_eq}
use omni_benchmark.Prelude.{
  ℕ, suc, String, Bool, true, false, not, ◌&&◌, ◌||◌, Option, none, some, List, [], ◌∷◌, ◌++◌, map,
  leb, ◌==◌, all, any, is_empty, if◌then◌else◌,
}
use omni_benchmark.Prelude.Text.{member}
use omni_benchmark.Sealed.{
  ScoringMode, official, sensitivity, Outcome, FailureOrigin, benchmark_infrastructure,
  FailureClass, gold_query_missing, gold_timeout, gold_statement_error, gold_no_result,
  gold_result_overflow, SealedScoringResult, scorer,
}

-- A `ModeAttemptScore`, which has a result or else the failure of the gold query.
pub data ModeAttemptScore : Type 0 where
  scored : SealedScoringResult → ModeAttemptScore
  unscorable : FailureClass → ModeAttemptScore

pub record SealedScoredAttempt : Type 0 where
  pub attempt_id : String
  pub condition : String
  pub repetition : ℕ
  pub generation_sha256 : String
  pub generation_record_sha256 : String
  pub question_key : String
  pub generation_outcome : String
  pub official_score : ModeAttemptScore
  pub sensitivity_score : ModeAttemptScore

abbrev pub conditions : List String
conditions = "C1" ∷ "C2" ∷ "C3" ∷ "C4" ∷ []

abbrev pub repetitions : List ℕ
repetitions = 1 ∷ 2 ∷ 3 ∷ []

pub data SealedResultError : Type 0 where
  duplicate_attempt identity_invalid digest_invalid : SealedResultError
  duplicate_coordinates category_invalid infrastructure_blocks : SealedResultError
  scorer_invalid incomplete_matrix scoreability_varies : SealedResultError

pub data Checked (A : Type 0) : Type 0 where
  ok : A → Checked A
  refused : SealedResultError → Checked A

abbrev pub mode_score : ScoringMode → SealedScoredAttempt → ModeAttemptScore
mode_score official attempt = attempt.official_score
mode_score sensitivity attempt = attempt.sensitivity_score

-- `UNSCORABLE_GOLD_FAILURES`
abbrev pub is_unscorable_gold : FailureClass → Bool
is_unscorable_gold gold_query_missing = true
is_unscorable_gold gold_timeout = true
is_unscorable_gold gold_statement_error = true
is_unscorable_gold gold_no_result = true
is_unscorable_gold gold_result_overflow = true
is_unscorable_gold _ = false

abbrev pub is_missing : Option Outcome → Bool
is_missing none = true
is_missing (some outcome) = false

abbrev pub is_infrastructure : Option FailureOrigin → Bool
is_infrastructure (some benchmark_infrastructure) = true
is_infrastructure _ = false

-- `_validated_disposition`: the error that it raises, if any.
unfoldable pub validated_disposition : ScoringMode → ModeAttemptScore → Option SealedResultError
unfolding scorer
validated_disposition mode (unscorable failure) =
    if is_unscorable_gold failure then none else some category_invalid
validated_disposition mode (scored result) =
    if is_missing result.outcome || is_infrastructure result.failure_origin
    then some infrastructure_blocks
    else if str_eq result.scorer_identity (scorer mode).0
        && str_eq result.scorer_version (scorer mode).1
    then none
    else some scorer_invalid

abbrev pub is_hexadecimal : ℕ → Bool
is_hexadecimal c = (leb 48 c && leb c 57) || (leb 97 c && leb c 102)

unfoldable digest_from : ℕ → String → Bool
digest_from n String.[] = n == 64
digest_from n (String.◌∷◌ c s) = is_hexadecimal (code c) && digest_from (suc n) s

-- `_digest`
unfoldable pub is_digest : String → Bool
unfolding digest_from
is_digest s = digest_from 0 s

abbrev pub Row : Type 0
Row = List ((String × ℕ) × SealedScoredAttempt)

abbrev pub Matrix : Type 0
Matrix = List (String × Row)

abbrev pub same_key : String × ℕ → String × ℕ → Bool
same_key x y = str_eq x.0 y.0 && x.1 == y.1

-- `key in row`
abbrev pub has_key : String × ℕ → Row → Bool
has_key key row = any (λ entry. same_key key entry.0) row

-- `matrix.setdefault(question, {})`, as a value.
unfoldable pub row_of : String → Matrix → Row
row_of question [] = []
row_of question ((q, row) ∷ rest) =
    let later = row_of question rest in if str_eq question q then row else later

-- `matrix[question][key] = attempt`, where the key is new.
unfoldable pub put : String → (String × ℕ) × SealedScoredAttempt → Matrix → Matrix
put question entry [] = (question, entry ∷ []) ∷ []
put question entry ((q, row) ∷ rest) =
    let later = put question entry rest in
    if str_eq question q then (q, row ++ (entry ∷ [])) ∷ rest else (q, row) ∷ later
