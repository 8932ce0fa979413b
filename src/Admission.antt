-- ===== src/Admission.antt =====
-- src/omni_benchmark/sql_admission.py: which SQL of a system under test may be run. The parser and its
-- trees are sqlglot's: the record `Sqlglot`, where an error that the code catches is `none`.
pub mod Safe
pub mod Gate
use text.Mathlib.Text.{◌==◌ as str_eq, starts_with}
use omni_benchmark.Prelude.Text.{is_blank, member}
use omni_benchmark.Prelude.{
  String, Bool, true, false, not, ◌&&◌, ◌||◌, Option, none, some, List, [], ◌∷◌, ◌++◌, any,
  is_empty, ◌==◌, length, if◌then◌else◌,
}

pub record Sqlglot : Type 1 where
  pub Expr : Type 0
  pub Token : Type 0
  -- `isinstance(e, exp.Query)`
  pub is_query : Expr → Bool
  -- `e.find(exp.DML)` and `e.find(exp.Into)`
  pub find_dml : Expr → Option Expr
  pub find_into : Expr → Option Expr
  -- `e.find_all(exp.Anonymous)`, and `name`
  pub find_all_anonymous : Expr → List Expr
  pub name : Expr → String
  pub tokenize : String → Option (List Token)
  pub parse : List Token → String → Option (List (Option Expr))
  -- `token_type is TokenType.VAR`, `.AMP` and `.IDENTIFIER`
  pub is_var : Token → Bool
  pub is_amp : Token → Bool
  pub is_identifier : Token → Bool
  pub text : Token → String
  -- `str.casefold` and `str.lower`
  pub casefold : String → String
  pub lower : String → String

abbrev pub side_effect_functions : List String
side_effect_functions =
    "nextval" ∷ "pg_cancel_backend" ∷ "pg_create_restore_point" ∷ "pg_export_snapshot"
    ∷ "pg_log_backend_memory_contexts" ∷ "pg_notify" ∷ "pg_promote" ∷ "pg_reload_conf"
    ∷ "pg_rotate_logfile" ∷ "pg_switch_wal" ∷ "pg_terminate_backend" ∷ "set_config" ∷ "setseed"
    ∷ "setval" ∷ []

abbrev pub is_present {ℓ} : {A : Type ℓ} → Option A → Bool
is_present none = false
is_present (some a) = true

module _ (g : Sqlglot) where
  -- `_side_effect_function`
  unfoldable pub side_effect_function : String → Bool
  side_effect_function name =
      let normalized = g.lower name in
      member normalized side_effect_functions
      || (starts_with normalized "lo_" || starts_with normalized "pg_")

  -- `_has_unicode_identifier`
  unfoldable pub has_unicode_identifier : List g.Token → Bool
  has_unicode_identifier (first ∷ second ∷ third ∷ tokens) =
      (g.is_var first
        && str_eq (g.casefold (g.text first)) "u"
        && g.is_amp second
        && g.is_identifier third)
      || has_unicode_identifier (second ∷ third ∷ tokens)
  has_unicode_identifier tokens = false

  abbrev pub parse_tokens : String → Option (List g.Token) → Option (List (Option g.Expr))
  parse_tokens statement none = none
  parse_tokens statement (some tokens) =
      if has_unicode_identifier tokens then some (none ∷ []) else g.parse tokens statement

  -- `_parse_without_source_logging`
  unfoldable pub parse_without_source_logging : String → Option (List (Option g.Expr))
  unfolding has_unicode_identifier
  parse_without_source_logging statement = parse_tokens statement (g.tokenize statement)

  abbrev pub joined :
      Option (List (Option g.Expr)) → Option (List (Option g.Expr)) → Option (List (Option g.Expr))
  joined none rest = none
  joined (some expressions) none = none
  joined (some expressions) (some rest) = some (expressions ++ rest)

  -- The tuple of all expressions of all statements.
  unfoldable pub parse_all : List String → Option (List (Option g.Expr))
  parse_all [] = some []
  parse_all (statement ∷ values) =
      joined (parse_without_source_logging statement) (parse_all values)

  abbrev pub is_some_query : Option g.Expr → Bool
  is_some_query none = false
  is_some_query (some e) = g.is_query e

  -- `queries`
  abbrev pub queries : List (Option g.Expr) → List g.Expr
  queries [] = []
  queries (none ∷ parsed) = queries parsed
  queries (some e ∷ parsed) = let rest = queries parsed in if g.is_query e then e ∷ rest else rest

  abbrev pub changes_data : g.Expr → Bool
  changes_data e = is_present (g.find_dml e) || is_present (g.find_into e)

  abbrev pub has_side_effects : g.Expr → Bool
  has_side_effects e = any (λ f. side_effect_function (g.name f)) (g.find_all_anonymous e)

  -- `_queries_are_safe`
  unfoldable pub queries_are_safe : List (Option g.Expr) → Bool
  unfolding side_effect_function
  queries_are_safe parsed =
      if any (λ e. not (is_some_query e)) parsed
      then false
      else if any changes_data (queries parsed)
      then false
      else not (any has_side_effects (queries parsed))

  abbrev pub some_and_safe : Option (List (Option g.Expr)) → Bool
  some_and_safe none = false
  some_and_safe (some parsed) = not (is_empty parsed) && queries_are_safe parsed

  -- `query_sql_is_admissible`, of a sequence of texts
  unfoldable pub query_sql_is_admissible : List String → Bool
  unfolding parse_all queries_are_safe
  query_sql_is_admissible values =
      if is_empty values
      then false
      else if any is_blank values
      then false
      else some_and_safe (parse_all values)

  abbrev pub one_and_safe : Option (List (Option g.Expr)) → Bool
  one_and_safe none = false
  one_and_safe (some parsed) = (length parsed == 1) && queries_are_safe parsed

  -- `single_query_sql_is_admissible`, of a text
  unfoldable pub single_query_sql_is_admissible : String → Bool
  unfolding parse_without_source_logging queries_are_safe
  single_query_sql_is_admissible statement =
      if is_blank statement then false else one_and_safe (parse_without_source_logging statement)
