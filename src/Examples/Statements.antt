-- ===== src/Examples/Statements.antt =====
-- A parser of two statements, whose trees are small, and the evaluator with the admission test on it.
use text.Mathlib.Text.{◌==◌ as str_eq}
use omni_benchmark.Prelude.Text.{is_blank}
use omni_benchmark.Prelude.{
  ◌≡◌, refl, ◌⊎◌, String, Bool, true, false, Option, none, some, List, [], ◌∷◌, if◌then◌else◌, ℕ,
}
use omni_benchmark.Sealed.{Scorers}
use omni_benchmark.Admission.{
  Sqlglot, query_sql_is_admissible, single_query_sql_is_admissible, queries_are_safe, parse_all,
  parse_without_source_logging, has_unicode_identifier, side_effect_function,
}
use omni_benchmark.Admission.Safe.{single_query_sql_is_admissible-list}
use omni_benchmark.Examples.Database.{lenient}

data Term : Type 0 where
  column : Term
  query : Term → Term
  insertion : Term → Term
  call : String → Term → Term

abbrev is_insertion : Term → Bool
is_insertion (insertion t) = true
is_insertion t = false

abbrev is_call : Term → Bool
is_call (call f t) = true
is_call t = false

abbrev called : Term → String
called (call f t) = f
called t = ""

abbrev insertion_in : Term → Option Term
insertion_in column = none
insertion_in (query t) = insertion_in t
insertion_in (insertion t) = some (insertion t)
insertion_in (call f t) = insertion_in t

abbrev calls_in : Term → List Term
calls_in column = []
calls_in (query t) = calls_in t
calls_in (insertion t) = calls_in t
calls_in (call f t) = call f t ∷ calls_in t

abbrev Below : Term → Term → Type 0
Below n column = column ≡ n
Below n (query t) = (query t ≡ n) ⊎ Below n t
Below n (insertion t) = (insertion t ≡ n) ⊎ Below n t
Below n (call f t) = (call f t ≡ n) ⊎ Below n t

abbrev parsed : String → List (Option Term)
parsed s =
    if str_eq s "SELECT 7"
    then some (query (call "upper" column)) ∷ []
    else some (insertion column) ∷ []

abbrev small : Sqlglot
small = record {
  Expr = Term;
  Token = Unit {0};
  is_query = λ t. elim t [ query u ↦ true | _ ↦ false ];
  find_dml = insertion_in;
  find_into = λ t. none;
  find_all_anonymous = calls_in;
  name = called;
  tokenize = λ s. some [];
  parse = λ tokens s. some (parsed s);
  is_var = λ t. false;
  is_amp = λ t. false;
  is_identifier = λ t. false;
  text = λ t. "";
  casefold = λ s. s;
  lower = λ s. s;
}

single_admitted : single_query_sql_is_admissible small "SELECT 7" ≡ true
unfolding single_query_sql_is_admissible parse_without_source_logging queries_are_safe
    has_unicode_identifier side_effect_function is_blank
single_admitted = refl

single_query_sql_is_admissible-list_example : query_sql_is_admissible small ("SELECT 7" ∷ []) ≡ true
single_query_sql_is_admissible-list_example =
    single_query_sql_is_admissible-list small "SELECT 7" single_admitted

refused : query_sql_is_admissible small ("INSERT" ∷ []) ≡ false
unfolding query_sql_is_admissible parse_all parse_without_source_logging queries_are_safe
    has_unicode_identifier is_blank
refused = refl

abbrev strict : Scorers ℕ
strict = record lenient { is_admissible = query_sql_is_admissible small }
