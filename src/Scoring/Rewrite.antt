-- ===== src/Scoring/Rewrite.antt =====
-- src/omni_benchmark/scoring.py: `rewrite_sql_official`. A text is the list of its characters, as the
-- source indexes it. Python's `re` and `strip` are parameters.
pub mod Ends
use Prim.Native.Char.{Char, code}
use omni_benchmark.Prelude.{
  ℕ, zero, suc, ◌+◌, ◌-◌, Bool, ◌&&◌, ◌||◌, Option, none, some, List, [], ◌∷◌, ◌++◌, ◌==◌, length,
  take, drop, if◌then◌else◌,
}

abbrev pub SqlText : Type 0
SqlText = List Char

abbrev pub opens : Char → Bool
opens c = code c == 40

abbrev pub closes : Char → Bool
closes c = code c == 41

abbrev pub is_comma : Char → Bool
is_comma c = code c == 44

-- The loop of `_matching_parenthesis` from `index`. Its `depth`, which may be negative, is the number
-- of parentheses opened less that of those closed.
unfoldable pub matching_from : ℕ → ℕ → ℕ → SqlText → Option ℕ
matching_from index opened closed [] = none
matching_from index opened closed (c ∷ text) =
    let opened = if opens c then suc opened else opened in
    let closed = if closes c then suc closed else closed in
    let later = matching_from (suc index) opened closed text in
    if closes c && opened == closed then some index else later

-- `_matching_parenthesis`, with `none` for -1.
unfoldable pub matching_parenthesis : SqlText → ℕ → Option ℕ
unfolding matching_from
matching_parenthesis text start = matching_from start 0 0 (drop start text)

-- The loop of `_first_argument_end` from `index`, where `stop` is the length of the whole text.
unfoldable pub argument_from : ℕ → ℕ → ℕ → SqlText → ℕ
argument_from stop index depth [] = stop
argument_from stop index depth (c ∷ text) =
    let inside = if opens c then suc depth else if closes c then depth - 1 else depth in
    let later = argument_from stop (suc index) inside text in
    if (closes c || is_comma c) && depth == 0 then index else later

unfoldable pub first_argument_end : SqlText → ℕ → ℕ
unfolding argument_from
first_argument_end text start = argument_from (length text) start 0 (drop start text)

-- `text[first:last]`
abbrev pub slice : ℕ → ℕ → SqlText → SqlText
slice first last text = take (last - first) (drop first text)

-- The span of a match of `ROUND\s*\(`.
pub record Found : Type 0 where
  pub begin : ℕ
  pub end : ℕ

-- `pattern.search`, `str.strip`, and the five calls of `re.sub`.
pub record Texts : Type 0 where
  pub search : SqlText → Option Found
  pub strip : SqlText → SqlText
  pub drop_blocks : SqlText → SqlText
  pub drop_line_comments : SqlText → SqlText
  pub drop_blank_lines : SqlText → SqlText
  pub drop_distinct : SqlText → SqlText
  pub join_spaces : SqlText → SqlText

module _ (texts : Texts) where
  -- The body of the loop at a match that is closed.
  unfoldable pub unwrapped : SqlText → Found → ℕ → SqlText
  unfolding first_argument_end
  unwrapped text found close_parenthesis =
      let open_parenthesis = found.end - 1 in
      let argument_end = first_argument_end text (open_parenthesis + 1) in
      let first_argument = texts.strip (slice (open_parenthesis + 1) argument_end text) in
      take found.begin text ++ (first_argument ++ drop (close_parenthesis + 1) text)

  unfoldable pub unwrap_at : SqlText → Found → Option SqlText
  unfolding matching_parenthesis unwrapped
  unwrap_at text found = elim (matching_parenthesis text (found.end - 1)) [
    | none ↦ none
    | some close_parenthesis ↦ some (unwrapped text found close_parenthesis)
  ]

  -- An iteration of `_remove_round_official`: `none` where its loop ends.
  unfoldable pub unwrap_round : SqlText → Option SqlText
  unfolding unwrap_at
  unwrap_round text = elim (texts.search text) [ none ↦ none | some found ↦ unwrap_at text found ]

  -- `_remove_round_official`, with `none` where the fuel runs out.
  unfoldable pub remove_round_official : ℕ → SqlText → Option SqlText
  unfolding unwrap_round
  remove_round_official zero text = none
  remove_round_official (suc fuel) text = elim (unwrap_round text) [
    | none ↦ some text
    | some result ↦ remove_round_official fuel result
  ]

  unfoldable pub remove_comments_official : SqlText → SqlText
  remove_comments_official sql =
      texts.strip (texts.drop_blank_lines (texts.drop_line_comments (texts.drop_blocks sql)))

  unfoldable pub remove_distinct_official : SqlText → SqlText
  remove_distinct_official sql = texts.strip (texts.join_spaces (texts.drop_distinct sql))

  unfoldable pub rewrite_sql_official : SqlText → Option SqlText
  unfolding remove_round_official remove_comments_official remove_distinct_official
  rewrite_sql_official sql =
      let text = remove_distinct_official (remove_comments_official sql) in
      remove_round_official (suc (length text)) text
