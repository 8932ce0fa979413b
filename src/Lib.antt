-- ===== src/Lib.antt =====
-- A benchmark of systems that answer questions with SQL (src/omni_benchmark/*.py): the part that
-- runs the SQL of a system under test, scores it, and guards what a scoring may say.
--
-- Parts and files:
-- - Prelude, Prelude/*: names of the libraries, Boolean tests, lists and text.
-- - Action: a computation that passes a state on and may raise, with Python's `try … except` and
--   `try … finally`; Action/Yields states what such a computation returns or raises.
-- - Postgres, Postgres/Run: src/omni_benchmark/postgres_execution.py. The database driver is not
--   part of the repository: it is the record `Driver`, whose every call passes on a state of the
--   outside world and may raise. The timer thread of a statement is modelled by what it has done
--   when it is joined.
-- - Sealed, Sealed/*: src/omni_benchmark/sealed_scoring.py. `Provider` is the isolation provider,
--   and the evaluator's state is the world with a log of its calls of the provider and of the
--   connections it opened. Sealed/Calls has the logged calls, Sealed/Phases the phases on one
--   isolate, Sealed/Compare the comparison, Sealed/Query the three entry points. Sealed/Protocol is
--   the specification of a log: a session of zero, one or two isolates.
-- - Batch, Batch/*: src/omni_benchmark/baseline_batch.py. Batch has attempts, the budget and what an
--   attempt is charged, Batch/Queues the queue of each database, Batch/Loop an iteration of
--   `run_baseline_batch`, and Batch/Run its loops; Batch/Run/Reached has its steps as a relation on
--   states. The thread pool, the clock and the repository of attempts are
--   the record `Environment`; an amount of money is a whole number of some
--   power of two of dollars, as every float is, and the sums of floats are fields of `Environment`:
--   the theorems on money assume that they are exact up to the ceiling (Batch/Loop/Money).
-- - Split, Split/*: src/omni_benchmark/split.py. Split/Apportion has the proportional allocation, and
--   Split/Select the choice of identifiers and the two splits. SHA-256 is a parameter; a set is a list.
-- - Schedule, Schedule/*: src/omni_benchmark/freeze_b_schedule.py, and two constants of freeze_b.py.
--   The committed bytes, the regular expressions, the content policy and SHA-256 are the record
--   `Sources`.
-- - Pairs, Pairs/*: src/omni_benchmark/r2_paired_schedule.py. Pairs has the arms that the questions
--   begin with, Pairs/Rounds the loops over rounds and databases, Pairs/Build the assertions and the
--   whole. The inputs are the values that the files are decoded to; SHA-256 is in the record `Hashing`.
-- - Admission, Admission/*: src/omni_benchmark/sql_admission.py. The parser is the record `Sqlglot`;
--   Admission/Gate puts the test into the evaluator of Sealed.
-- - Scoring, Scoring/*: src/omni_benchmark/scoring.py. Scoring/Rewrite has `rewrite_sql_official`, with
--   the calls of `re` and `strip` in the record `Texts`. Scoring/Values has the values of a row and the
--   rounding of Decimal, Scoring/Compare the normalized values, Scoring/Sensitivity the policy and
--   `sensitivity_equal`, and Scoring/Official `official_soft_ex_equal`. The order of the keys of a
--   mapping, and Python's `==`, `json.dumps` and nearest float are parameters.
-- - Results, Results/*: src/omni_benchmark/sealed_results.py. Results/Validation has the matrix of
--   scores, Results/Report the counts of a condition, Results/Contrasts and Results/Inference the
--   contrasts and tests, Results/Bootstrap the samples. Rates and p values are exact fractions.
-- - Pareto, Pareto/*: src/omni_benchmark/autoresearch_analysis.py. `dominates` and `pareto_frontier`,
--   for any comparison of measures.
-- - Ledger, Ledger/Append: src/omni_benchmark/autoresearch_lifecycle.py. `_parse_ledger` and what
--   `_append_event` writes, with JSON and SHA-256 in the record `Format`.
-- - Examples: concrete drivers, batches, questions, scores and candidates, and the theorems on them.
--
-- `drain` repeats `nextset` on as much fuel as the driver has result sets left. `batch_loop`
-- has one unit more than the attempts that are pending, since each iteration completes one.
-- `remove_round_official` has one unit more than the text has characters, since an iteration shortens it.
--
-- Not modelled: tests of the classes of Python values, which the types replace; the timeouts other
-- than the default one, which nothing in the evaluator asks for; in the evaluator, the admission
-- test and the comparators, which are fields of the record `Scorers`; an exception of sqlglot that
-- sql_admission.py does not catch; the bytes and the file of the sealed schedule, and the
-- manifests of freeze_b.py; the files and other fields of the paired schedule; the telemetry of a
-- batch, and how the repository of attempts reads its files; the manifest, metadata and files of a split; the terminal failure classes, the
-- intervals and the publication of the sealed results; the anchors, locks and other files of
-- autoresearch_lifecycle.py, and the deltas of two runs.
pub mod Prelude
pub mod Action
pub mod Postgres
pub mod Sealed
pub mod Batch
pub mod Split
pub mod Schedule
pub mod Pairs
pub mod Admission
pub mod Scoring
pub mod Results
pub mod Pareto
pub mod Ledger
pub mod Examples
