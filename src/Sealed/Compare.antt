-- ===== src/Sealed/Compare.antt =====
-- src/omni_benchmark/sealed_scoring.py: the SQL that each policy runs,
-- and the comparison of two results.
use omni_benchmark.Prelude.{String, Bool, false, Option, none, some, List, map, if◌then◌else◌}
use omni_benchmark.Action.{Result, ok, raise}
use omni_benchmark.Postgres.{Driver, QuerySequenceResult, Rows}
use omni_benchmark.Sealed.{
  ScoringMode, official, sensitivity, correct, wrong_answer, candidate_no_result, gold_no_result,
  scorer_policy_error, scorer, SealedScoringResult, system_failure, infrastructure_failure,
  CompareError, policy_error, other_error, Uncaught, compare_error, Scorers, SealedQueryCase,
}

module _ (d : Driver) (sc : Scorers d.Cell) where
  open d use {Connection, Cell}
  open sc use {Conditions}

  abbrev pub Case : Type 0
  Case = SealedQueryCase Conditions

  -- `_scoring_sql`
  pub candidate_scoring_sql : Case → ScoringMode → List String
  candidate_scoring_sql c sensitivity = c.candidate_sql
  candidate_scoring_sql c official = map sc.rewrite_official c.candidate_sql

  pub gold_scoring_sql : Case → ScoringMode → List String
  gold_scoring_sql c sensitivity = c.gold_sql
  gold_scoring_sql c official = map sc.rewrite_official c.gold_sql

  -- The test of `_compare`, and its `except (InvalidOperation, ScoringPolicyError)`.
  equal_rows : ScoringMode → Rows Cell → Rows Cell → Conditions → Result CompareError Bool
  equal_rows official = sc.official_equal
  equal_rows sensitivity = sc.sensitivity_equal

  verdict : ScoringMode → Bool → Bool → Bool → SealedScoringResult
  unfolding scorer
  verdict mode equal over_candidate over_gold = record {
    scorer_identity = (scorer mode).0;
    scorer_version = (scorer mode).1;
    outcome = some (if equal then correct else wrong_answer);
    failure_origin = none;
    failure_class = none;
    rerun_eligible = false;
    candidate_row_limit_exceeded = over_candidate;
    gold_row_limit_exceeded = over_gold;
  }

  unfoldable pub compared :
      ScoringMode → Result CompareError Bool → Bool → Bool → Result Uncaught SealedScoringResult
  unfolding verdict
  compared mode (ok equal) over_candidate over_gold =
      ok (verdict mode equal over_candidate over_gold)
  compared mode (raise policy_error) over_candidate over_gold =
      ok (infrastructure_failure mode scorer_policy_error)
  compared mode (raise other_error) over_candidate over_gold = raise compare_error

  -- `_compare`, with the rows of the two results taken apart.
  unfoldable pub compare_rows :
      ScoringMode
      → Option (Rows Cell)
      → Option (Rows Cell)
      → Bool
      → Bool
      → Conditions
      → Result Uncaught SealedScoringResult
  unfolding equal_rows compared
  compare_rows mode none gold_rows co go c = ok (system_failure mode candidate_no_result)
  compare_rows mode (some rows) none co go c = ok (infrastructure_failure mode gold_no_result)
  compare_rows mode (some rows) (some gold_rows) co go c =
      compared mode (equal_rows mode rows gold_rows c) co go

  unfoldable pub compare_results :
      ScoringMode
      → QuerySequenceResult Cell
      → QuerySequenceResult Cell
      → Conditions
      → Result Uncaught SealedScoringResult
  unfolding compare_rows
  compare_results mode predicted expected c =
      compare_rows mode predicted.rows expected.rows predicted.row_limit_exceeded
        expected.row_limit_exceeded c
