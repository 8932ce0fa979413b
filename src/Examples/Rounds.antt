-- ===== src/Examples/Rounds.antt =====
-- A search that finds `R(` at the beginning of a text, and a text with two of them.
use mathlib.Core.Path.{subst}
use mathlib.Core.Option.{some-injective}
use Prim.Native.Char.{Char, code}
use omni_benchmark.Prelude.{
  ◌≤◌, ◌-◌, ◌≡◌, refl, ◌==◌, Bool, ◌&&◌, Option, none, some, [], ◌∷◌, length, arith, Bool-cases,
  inl, inr, if◌then◌else◌,
}
use omni_benchmark.Scoring.Rewrite.{
  SqlText, opens, Found, Texts, rewrite_sql_official, remove_comments_official,
  remove_distinct_official, matching_parenthesis,
}
use omni_benchmark.Scoring.Rewrite.Ends.{IsFound, rewrite_sql_official-Ends}

abbrev is_round : Char → Char → Bool
is_round c d = code c == 82 && opens d

unfoldable search : SqlText → Option Found
search [] = none
search (c ∷ []) = none
search (c ∷ d ∷ text) = if is_round c d then some (record { begin = 0; end = 2 }) else none

abbrev texts : Texts
texts = record {
  search = search;
  strip = λ text. text;
  drop_blocks = λ text. text;
  drop_line_comments = λ text. text;
  drop_blank_lines = λ text. text;
  drop_distinct = λ text. text;
  join_spaces = λ text. text;
}

search-Found : (text : SqlText) (found : Found) → search text ≡ some found → IsFound text found
unfolding search
search-Found [] found e = ground (arith, e)
search-Found (c ∷ []) found e = ground (arith, e)
search-Found (c ∷ d ∷ text) found e = elim (Bool-cases (is_round c d)) [
  | inl starts ↦
      subst (IsFound (c ∷ d ∷ text)) (some-injective _ _ (rw (starts, search) at e)) (record {
        ordered = omega arith;
        fits = omega arith;
        bracket = d;
        rest = text;
        read = refl;
        opened = ground (arith, starts);
      })
  | inr other ↦ ground (arith, rw (other, search) at e)
]

abbrev sql : SqlText
sql = "R" ∷ "(" ∷ "R" ∷ "(" ∷ "1" ∷ ")" ∷ "," ∷ "2" ∷ ")" ∷ []

rewritten : rewrite_sql_official texts sql ≡ some ("1" ∷ [])
unfolding rewrite_sql_official search
rewritten = refl

rewrite_sql_official-Ends_example :
    (result : SqlText) × (rewrite_sql_official texts sql ≡ some result)
    × (length result ≤ length (remove_distinct_official texts (remove_comments_official texts sql)))
    × ((found : Found)
        → search result ≡ some found
        → matching_parenthesis result (found.end - 1) ≡ none)
rewrite_sql_official-Ends_example =
    rewrite_sql_official-Ends texts (λ text. omega arith) search-Found sql
