-- ===== src/Admission/Safe.antt =====
-- sql_admission.py: what an admitted statement cannot contain.
use omni_benchmark.Prelude.Text.{is_blank}
use omni_benchmark.Prelude.{
  In, ◌≡◌, ap, String, Bool, true, false, Option, none, some, List, [], ◌∷◌, ◌++◌, map, any,
  is_empty, All, Option-cases, inl, inr, arith,
}
use omni_benchmark.Admission.{
  one_and_safe, single_query_sql_is_admissible, Sqlglot, side_effect_function,
  has_unicode_identifier, parse_without_source_logging, parse_all, some_and_safe,
  query_sql_is_admissible,
}

-- What `find` and `find_all` promise: nothing of a class in the tree is left out.
pub record Trees (g : Sqlglot) : Type 1 where
  pub Node : g.Expr → g.Expr → Type 0
  pub is_dml : g.Expr → Bool
  pub is_into : g.Expr → Bool
  pub is_anonymous : g.Expr → Bool
  pub finds_dml : (e n : g.Expr) → g.find_dml e ≡ none → Node n e → is_dml n ≡ false
  pub finds_into : (e n : g.Expr) → g.find_into e ≡ none → Node n e → is_into n ≡ false
  pub finds_anonymous :
      (e n : g.Expr) → Node n e → is_anonymous n ≡ true → In n (g.find_all_anonymous e)

module _ (g : Sqlglot) (trees : Trees g) where
  -- A query in whose tree no node changes data or calls a function with a side effect.
  pub record IsHarmless (e : g.Expr) : Type 0 where
    pub query : g.is_query e ≡ true
    pub no_dml : (n : g.Expr) → trees.Node n e → trees.is_dml n ≡ false
    pub no_into : (n : g.Expr) → trees.Node n e → trees.is_into n ≡ false
    pub no_side_effect :
        (n : g.Expr)
        → trees.Node n e
        → trees.is_anonymous n ≡ true
        → side_effect_function g (g.name n) ≡ false

  -- A statement whose tokens hold no Unicode identifier, and that is parsed to harmless queries.
  pub record IsSafe (statement : String) : Type 0 where
    pub tokens : List g.Token
    pub tokenized : g.tokenize statement ≡ some tokens
    pub plain : has_unicode_identifier g tokens ≡ false
    pub expressions : List g.Expr
    pub parsed : g.parse tokens statement ≡ some (map some expressions)
    pub harmless : All IsHarmless expressions

  abbrev IsHarmlessQuery : Option g.Expr → Type 0
  IsHarmlessQuery none = ⊥
  IsHarmlessQuery (some e) = IsHarmless e

  -- What an admitted list of statements is: not empty, each statement safe and not blank.
  pub record IsAdmitted (values : List String) : Type 0 where
    pub some_statement : is_empty values ≡ false
    pub not_blank : any is_blank values ≡ false
    pub safe : All IsSafe values

module _ (g : Sqlglot) where
  one_safe :
      (parsed : List (Option g.Expr))
      → one_and_safe g (some parsed) ≡ true
      → some_and_safe g (some (parsed ++ [])) ≡ true
  one_safe [] h = absurd (ground (arith, h))
  one_safe (e ∷ []) h = h
  one_safe (e ∷ f ∷ parsed) h = absurd (ground (arith, h))

  -- What the test for one statement admits, the test for a list of statements admits.
  pub single_query_sql_is_admissible-list :
      (statement : String)
      → single_query_sql_is_admissible g statement ≡ true
      → query_sql_is_admissible g (statement ∷ []) ≡ true
  unfolding single_query_sql_is_admissible query_sql_is_admissible parse_all
  single_query_sql_is_admissible-list statement h =
      elim (Option-cases (parse_without_source_logging g statement)) [
        | inl e ↦ absurd (ground (arith, h, ap (one_and_safe g) e))
        | inr found ↦
            let test : (is_blank statement ≡ false) × (one_and_safe g (some found.0) ≡ true) =
              (ground (arith, h), ground (arith, h, ap (one_and_safe g) found.1)) in
            rw (test.0, found.1) (one_safe found.0 test.1)
      ]
