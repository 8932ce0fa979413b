-- ===== src/Postgres.antt =====
-- src/omni_benchmark/postgres_execution.py: typed execution of a sequence of statements.
-- The database driver is not part of the repository: it is the record `Driver`, whose answers
-- depend on the state `World` of everything outside the program.
pub mod Run
use Prim.Native.String.{◌++◌ as append}
use text.Mathlib.Text.{starts_with, ◌==◌ as str_eq}
use omni_benchmark.Prelude.{
  ℕ, suc, zero, ◌+◌, ◌*◌, ◌<◌, ◌≡◌, String, Bool, true, false, ◌&&◌, ◌||◌, not, Option, none, some,
  List, [], ◌∷◌, leb, ltb, ◌==◌, if◌then◌else◌, take, length, any,
}
use omni_benchmark.Prelude.Text.{is_blank}
use omni_benchmark.Action.{Result, ok, raise, Action, pure, throw, lift, ◌>>=◌, ◌>>◌, try_except}

abbrev pub max_result_rows : ℕ
max_result_rows = 10_000

abbrev pub max_statement_timeout_ms : ℕ
max_statement_timeout_ms = 60 * 1_000

abbrev pub query_canceled_sqlstate : String
query_canceled_sqlstate = "57014"

abbrev pub default_timeout_sql : String
default_timeout_sql = "SET statement_timeout = '60s';"

pub data Kind : Type 0 where
  timeout statement infrastructure : Kind

pub record ExecutionError : Type 0 where
  pub kind : Kind
  pub sqlstate : Option String
  pub statement_index : ℕ

-- `getattr(error, name, None)` of an exception that the driver raised.
pub data Attribute : Type 0 where
  missing : Attribute
  str_value : String → Attribute
  other_value : Attribute

-- What an `except Exception as error` in this module can hold: an exception of the driver, by the
-- attributes that the module reads, or the module's own error.
pub data Exception : Type 0 where
  driver_error : (sqlstate pgcode : Attribute) (is_connection_error : Bool) → Exception
  execution_error : ExecutionError → Exception

-- What the timer thread did while `cursor.execute` ran.
pub data Cancellation : Type 0 where
  not_fired cancelled cancel_failed : Cancellation

pub record Driver : Type 1 where
  pub World : Type 0
  pub Connection : Type 0
  pub Cursor : Type 0
  pub Cell : Type 0
  pub cursor : Connection → Action World Exception Cursor
  pub execute : Cursor → String → Action World Exception Unit
  -- `cursor.execute` beside a running timer
  pub execute_timed :
      Connection
      → Cursor
      → String
      → (timeout_ms : ℕ) → World
      → (Result Exception Unit × Cancellation) × World
  pub commit : Connection → Action World Exception Unit
  pub rollback : Connection → Action World Exception Unit
  pub nextset : Cursor → Action World Exception Bool
  pub has_description : Cursor → Action World Exception Bool
  pub fetchmany : Cursor → ℕ → Action World Exception (List (List Cell))
  pub close_cursor : Cursor → Action World Exception Unit
  -- the result sets that `nextset` has still to report
  pub sets_left : Cursor → World → ℕ

abbrev pub Rows : Type 0 → Type 0
Rows Cell = List (List Cell)

pub record QuerySequenceResult (Cell : Type 0) : Type 0 where
  pub rows : Option (Rows Cell)
  pub statement_count : ℕ
  pub row_limit_exceeded : Bool

unfoldable pub infrastructure_error : ℕ → ExecutionError
infrastructure_error i = record { kind = infrastructure; sqlstate = none; statement_index = i }

abbrev pub text_of : Attribute → Option String
text_of missing = none
text_of (str_value s) = some s
text_of other_value = none

pub sqlstate_of : Exception → Option String
sqlstate_of (driver_error missing pgcode c) = text_of pgcode
sqlstate_of (driver_error sqlstate pgcode c) = text_of sqlstate
sqlstate_of (execution_error e) = e.sqlstate

abbrev pub is_connection_error : Exception → Bool
is_connection_error (driver_error s p c) = c
is_connection_error (execution_error e) = false

abbrev pub in_class_08 : Option String → Bool
in_class_08 none = false
in_class_08 (some s) = starts_with s "08"

abbrev pub is_canceled : Option String → Bool
is_canceled none = false
is_canceled (some s) = str_eq s query_canceled_sqlstate

pub kind_of : Exception → Kind
unfolding sqlstate_of
kind_of error =
    if is_canceled (sqlstate_of error)
    then timeout
    else if in_class_08 (sqlstate_of error) || is_connection_error error
    then infrastructure
    else statement

-- `_execution_error`
unfoldable pub to_execution_error : Exception → ℕ → ExecutionError
unfolding kind_of sqlstate_of
to_execution_error error i = record {
  kind = kind_of error;
  sqlstate = sqlstate_of error;
  statement_index = i;
}

-- `_timeout_sql`: a `ValueError` is `none`. `show` is Python's decimal print of a number.
timeout_sql : (show : ℕ → String) → ℕ → Option String
timeout_sql show ms =
    if not (leb 1 ms && leb ms max_statement_timeout_ms)
    then none
    else if ms == max_statement_timeout_ms
    then some default_timeout_sql
    else some (append "SET statement_timeout = '" (append (show ms) "ms';"))

-- `_normalize_statements`, of a sequence of texts: a `ValueError` is `none`.
unfoldable pub normalize_statements : List String → Option (List String)
normalize_statements statements = if any is_blank statements then none else some statements
