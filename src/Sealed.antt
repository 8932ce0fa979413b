-- ===== src/Sealed.antt =====
-- src/omni_benchmark/sealed_scoring.py: the values that the sealed evaluator passes around, and
-- the isolation provider, which is not part of the repository, as the record `Provider`.
pub mod Calls
pub mod Phases
pub mod Compare
pub mod Protocol
pub mod Query
use text.Mathlib.Text.{◌==◌ as str_eq}
use omni_benchmark.Prelude.{
  String, Bool, true, false, not, Option, none, some, List, any, if◌then◌else◌,
}
use omni_benchmark.Prelude.Text.{is_blank}
use omni_benchmark.Action.{Result, ok, raise, Action}
use omni_benchmark.Postgres.{
  Kind, timeout, statement, infrastructure, Exception, Driver, Rows, QuerySequenceResult,
}

pub data ScoringMode : Type 0 where
  official sensitivity : ScoringMode

pub data Outcome : Type 0 where
  correct wrong_answer refused_or_error : Outcome

pub data FailureOrigin : Type 0 where
  evaluated_system benchmark_infrastructure : FailureOrigin

pub data FailureClass : Type 0 where
  no_query agent_refusal candidate_timeout candidate_execution_error : FailureClass
  candidate_database_unavailable candidate_database_connect_failed : FailureClass
  candidate_disallowed_statement candidate_no_result candidate_result_overflow : FailureClass
  gold_query_missing gold_timeout gold_statement_error gold_database_unavailable : FailureClass
  gold_database_connect_failed gold_no_result gold_result_overflow : FailureClass
  database_acquire_failed preprocess_connect_failed preprocess_timeout : FailureClass
  preprocess_statement_error preprocess_database_unavailable cleanup_connect_failed : FailureClass
  cleanup_timeout cleanup_statement_error cleanup_database_unavailable : FailureClass
  database_close_failed database_reset_failed database_release_failed : FailureClass
  scorer_policy_error : FailureClass

-- `failure_class in _RERUN_ELIGIBLE_FAILURES`
pub is_rerun_eligible : FailureClass → Bool
is_rerun_eligible candidate_database_unavailable = true
is_rerun_eligible candidate_database_connect_failed = true
is_rerun_eligible gold_database_unavailable = true
is_rerun_eligible gold_database_connect_failed = true
is_rerun_eligible database_acquire_failed = true
is_rerun_eligible preprocess_connect_failed = true
is_rerun_eligible preprocess_database_unavailable = true
is_rerun_eligible cleanup_connect_failed = true
is_rerun_eligible cleanup_database_unavailable = true
is_rerun_eligible database_close_failed = true
is_rerun_eligible database_reset_failed = true
is_rerun_eligible database_release_failed = true
is_rerun_eligible _ = false

pub data Phase : Type 0 where
  preprocess candidate gold cleanup : Phase

-- `_phase_failure`: a missing key is a `KeyError`, and `_execute_phase` never asks for one.
pub phase_failure : Phase → Kind → Option FailureClass
phase_failure preprocess timeout = some preprocess_timeout
phase_failure preprocess statement = some preprocess_statement_error
phase_failure preprocess infrastructure = some preprocess_database_unavailable
phase_failure candidate infrastructure = some candidate_database_unavailable
phase_failure candidate timeout = none
phase_failure candidate statement = none
phase_failure gold timeout = some gold_timeout
phase_failure gold statement = some gold_statement_error
phase_failure gold infrastructure = some gold_database_unavailable
phase_failure cleanup timeout = some cleanup_timeout
phase_failure cleanup statement = some cleanup_statement_error
phase_failure cleanup infrastructure = some cleanup_database_unavailable

-- `_scorer`
unfoldable pub scorer : ScoringMode → String × String
scorer official = ("official_soft_ex", "livesqlbench-soft-ex-e15cd221-v1")
scorer sensitivity = ("sensitivity", "omni-multiset-decimal-v1")

pub record SealedScoringResult : Type 0 where
  pub scorer_identity : String
  pub scorer_version : String
  pub outcome : Option Outcome
  pub failure_origin : Option FailureOrigin
  pub failure_class : Option FailureClass
  pub rerun_eligible : Bool
  pub candidate_row_limit_exceeded : Bool
  pub gold_row_limit_exceeded : Bool

-- `_system_failure`
pub system_failure_at : ScoringMode → FailureClass → Bool → SealedScoringResult
unfolding scorer
system_failure_at mode failure over = record {
  scorer_identity = (scorer mode).0;
  scorer_version = (scorer mode).1;
  outcome = some refused_or_error;
  failure_origin = some evaluated_system;
  failure_class = some failure;
  rerun_eligible = false;
  candidate_row_limit_exceeded = over;
  gold_row_limit_exceeded = false;
}

pub system_failure : ScoringMode → FailureClass → SealedScoringResult
unfolding system_failure_at
system_failure mode failure = system_failure_at mode failure false

-- `system_no_answer` builds the same value.
pub system_no_answer : ScoringMode → FailureClass → SealedScoringResult
unfolding scorer
system_no_answer mode failure = record {
  scorer_identity = (scorer mode).0;
  scorer_version = (scorer mode).1;
  outcome = some refused_or_error;
  failure_origin = some evaluated_system;
  failure_class = some failure;
  rerun_eligible = false;
  candidate_row_limit_exceeded = false;
  gold_row_limit_exceeded = false;
}

-- `_infrastructure`
pub infrastructure_at : ScoringMode → FailureClass → Bool → SealedScoringResult
unfolding scorer is_rerun_eligible
infrastructure_at mode failure over = record {
  scorer_identity = (scorer mode).0;
  scorer_version = (scorer mode).1;
  outcome = none;
  failure_origin = some benchmark_infrastructure;
  failure_class = some failure;
  rerun_eligible = is_rerun_eligible failure;
  candidate_row_limit_exceeded = false;
  gold_row_limit_exceeded = over;
}

pub infrastructure_failure : ScoringMode → FailureClass → SealedScoringResult
unfolding infrastructure_at
infrastructure_failure mode failure = infrastructure_at mode failure false

-- The record of `as_score_record`; `none` is its `ValueError`.
pub record ScoreRecord : Type 0 where
  pub attempt_id : String
  pub outcome : Outcome
  pub failure_category : Option FailureClass

score_record : String → Option Outcome → Option FailureClass → Option ScoreRecord
score_record i none failure = none
score_record i (some refused_or_error) failure =
    some (record { attempt_id = i; outcome = refused_or_error; failure_category = failure })
score_record i (some outcome) failure =
    some (record { attempt_id = i; outcome = outcome; failure_category = none })

pub as_score_record : SealedScoringResult → String → Option ScoreRecord
unfolding score_record
as_score_record r i = score_record i r.outcome r.failure_class

-- What a comparator of scoring.py raises: `InvalidOperation` or `ScoringPolicyError`, or another
-- exception, such as the `TypeError` of a value that cannot be hashed.
pub data CompareError : Type 0 where
  policy_error other_error : CompareError

-- What escapes from `score_query`.
pub data Uncaught : Type 0 where
  value_error compare_error key_error : Uncaught

-- scoring.py and sql_admission.py, as the evaluator uses them.
pub record Scorers (Cell : Type 0) : Type 1 where
  pub Conditions : Type 0
  pub official_equal : Rows Cell → Rows Cell → Conditions → Result CompareError Bool
  pub sensitivity_equal : Rows Cell → Rows Cell → Conditions → Result CompareError Bool
  pub rewrite_official : String → String
  -- sql_admission.query_sql_is_admissible
  pub is_admissible : List String → Bool

pub record SealedQueryCase (Conditions : Type 0) : Type 0 where
  pub database : String
  pub candidate_sql : List String
  pub gold_sql : List String
  pub preprocess_sql : List String
  pub cleanup_sql : List String
  pub conditions : Conditions

-- The evaluator's calls of the provider and of the connections that it opened, the latest first.
pub data Call (Isolate Connection : Type 0) : Type 0 where
  acquired : Isolate → Call Isolate Connection
  opened : Isolate → Connection → Call Isolate Connection
  closed : Connection → Call Isolate Connection
  reset : Isolate → Call Isolate Connection
  released : Isolate → Call Isolate Connection

pub record Provider (d : Driver) : Type 1 where
  pub Isolate : Type 0
  pub acquire : String → Action d.World Exception Isolate
  pub connect_scoring : Isolate → Action d.World Exception d.Connection
  pub connect_trusted : Isolate → Action d.World Exception d.Connection
  pub close : d.Connection → Action d.World Exception Unit
  pub reset_isolate : Isolate → Action d.World Exception Unit
  pub release : Isolate → Action d.World Exception Unit

-- A query that ran, or the result that ends the scoring.
pub data Phased (Cell : Type 0) : Type 0 where
  ran : QuerySequenceResult Cell → Phased Cell
  ended : SealedScoringResult → Phased Cell
