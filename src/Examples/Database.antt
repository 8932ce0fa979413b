-- ===== src/Examples/Database.antt =====
-- A database driver and an isolation provider that answer by counting: the world is the number of
-- calls so far, and an isolate, a connection and a cursor are the number of the call that made them.
use omni_benchmark.Prelude.{◌-◌, ltb, ℕ, suc, Bool, true, false, [], ◌∷◌, ◌==◌, if◌then◌else◌}
use omni_benchmark.Action.{ok, raise}
use omni_benchmark.Postgres.{
  Driver, Exception, driver_error, missing, str_value, not_fired, cancel_failed, Rows,
}
use omni_benchmark.Sealed.{Provider, Scorers, SealedQueryCase}

abbrev lost : Exception
lost = driver_error (str_value "08006") missing true

abbrev pub counting : Driver
counting = record {
  World = ℕ;
  Connection = ℕ;
  Cursor = ℕ;
  Cell = ℕ;
  cursor = λ c w. (ok w, suc w);
  execute = λ c sql w. (ok tt, suc w);
  execute_timed = λ conn c sql ms w. ((ok tt, not_fired), suc w);
  commit = λ conn w. (ok tt, suc w);
  rollback = λ conn w. (ok tt, suc w);
  nextset = λ c w. (ok false, suc w);
  has_description = λ c w. (ok true, suc w);
  fetchmany = λ c n w. (ok ((7 ∷ []) ∷ []), suc w);
  close_cursor = λ c w. (ok tt, suc w);
  sets_left = λ c w. 0;
}

-- The driver whose timer cannot cancel a statement.
abbrev pub stuck : Driver
stuck = record counting { execute_timed = λ conn c sql ms w. ((raise lost, cancel_failed), suc w) }

-- The provider that fails to give an isolate back at world `bad`.
abbrev pub counter : ℕ → Provider counting
counter bad = record {
  Isolate = ℕ;
  acquire = λ database w. (ok w, suc w);
  connect_scoring = λ i w. (ok w, suc w);
  connect_trusted = λ i w. (ok w, suc w);
  close = λ conn w. (ok tt, suc w);
  reset_isolate = λ i w. (ok tt, suc w);
  release = λ i w. (if w == bad then raise lost else ok tt, suc w);
}

abbrev first_cells : Rows ℕ → Rows ℕ → Bool
first_cells ((a ∷ _) ∷ _) ((b ∷ _) ∷ _) = a == b
first_cells _ _ = false

abbrev pub lenient : Scorers ℕ
lenient = record {
  Conditions = Unit {0};
  official_equal = λ a b c. ok (first_cells a b);
  sensitivity_equal = λ a b c. ok (first_cells a b);
  rewrite_official = λ sql. sql;
  is_admissible = λ sql. true;
}

abbrev pub seven : SealedQueryCase (Unit {0})
seven = record {
  database = "museum";
  candidate_sql = "SELECT 7" ∷ [];
  gold_sql = "SELECT 7" ∷ [];
  preprocess_sql = [];
  cleanup_sql = "DROP TABLE t" ∷ [];
  conditions = tt;
}

-- The driver with two more result sets.
abbrev pub two_sets : Driver
two_sets = record counting { nextset = λ c w. (ok (ltb w 2), suc w); sets_left = λ c w. 2 - w }
