-- ===== src/Admission/Gate.antt =====
-- sql_admission.py and sealed_scoring.py: the evaluator runs no SQL that was not admitted.
use omni_benchmark.Prelude.{◌≡◌, ◌⊎◌, String, List}
use omni_benchmark.Postgres.{Driver}
use omni_benchmark.Sealed.{Scorers, Provider, Call}
use omni_benchmark.Admission.{Sqlglot, query_sql_is_admissible}
use omni_benchmark.Admission.Safe.{Trees, IsAdmitted}

module _ (d : Driver) (p : Provider d) (sc : Scorers d.Cell) (g : Sqlglot) (trees : Trees g)
    (filled : (values : List String)
      → sc.is_admissible values ≡ query_sql_is_admissible g values) where
  -- Nothing was called, or the statements were admitted.
  abbrev pub IsGated :
      List String → List (Call p.Isolate d.Connection) → List (Call p.Isolate d.Connection) → Type 0
  IsGated values before after = (after ≡ before) ⊎ IsAdmitted g trees values
