-- ===== src/Scoring/Rewrite/Ends.antt =====
-- Where `_first_argument_end` stops, and why the loop of `_remove_round_official` does.
use Prim.Native.Char.{Char}
use omni_benchmark.Prelude.{
  refl, sym, ap, ◌∙◌, ℕ, zero, suc, ◌+◌, ◌-◌, ◌≤◌, ◌<◌, ◌≡◌, true, none, some, [], ◌∷◌, ◌++◌,
  length, take, drop, arith, Option-cases, inl, inr, length-append, length-take,
}
use omni_benchmark.Scoring.Rewrite.{
  SqlText, opens, matching_from, matching_parenthesis, argument_from, first_argument_end, Found,
  Texts, unwrapped, unwrap_at, unwrap_round, remove_round_official, rewrite_sql_official,
  remove_comments_official, remove_distinct_official, slice,
}

length-drop : (n : ℕ) (text : SqlText) → length (drop n text) ≡ length text - n
length-drop zero text = omega arith
length-drop (suc n) [] = omega arith
length-drop (suc n) (c ∷ text) = omega (arith, length-drop n text)

-- A parenthesis is closed after the first argument has ended.
argument_from-before :
    (stop index depth opened closed close : ℕ) (text : SqlText)
    → opened ≡ suc (depth + closed)
    → matching_from index opened closed text ≡ some close
    → argument_from stop index depth text ≤ close × index ≤ close × close < index + length text
unfolding matching_from argument_from
argument_from-before stop index depth opened closed close [] e h = ground (arith, h)
argument_from-before stop index depth opened closed close (c ∷ text) e h =
    let deeper =
      argument_from-before stop (suc index) (suc depth) (suc opened) closed close text
        (omega (arith, e)) in
    let level = argument_from-before stop (suc index) depth opened closed close text e in
    let higher = λ (d : ℕ) (p : opened ≡ suc (d + suc closed)).
      argument_from-before stop (suc index) d opened (suc closed) close text p in
    ground (arith, h, e, deeper, level, higher (depth - 1))

drop-tail :
    (n : ℕ) (text rest : SqlText) (c : Char) → drop n text ≡ c ∷ rest → drop (suc n) text ≡ rest
drop-tail zero [] rest c h = ground (arith, h)
drop-tail zero (d ∷ text) rest c h = cc h
drop-tail (suc n) [] rest c h = ground (arith, h)
drop-tail (suc n) (d ∷ text) rest c h = drop-tail n text rest c h

-- What a match of `ROUND\s*\(` is: it ends with an opening parenthesis, and begins before that.
pub record IsFound (text : SqlText) (found : Found) : Type 0 where
  pub ordered : found.begin < found.end - 1
  pub fits : found.end ≤ length text
  pub bracket : Char
  pub rest : SqlText
  pub read : drop (found.end - 1) text ≡ bracket ∷ rest
  pub opened : opens bracket ≡ true

matching_from-inside :
    (stop start close : ℕ) (c : Char) (rest : SqlText)
    → opens c ≡ true
    → matching_from start 0 0 (c ∷ rest) ≡ some close
    → argument_from stop (suc start) 0 rest ≤ close
      × suc start ≤ close
      × close < suc start + length rest
unfolding matching_from
matching_from-inside stop start close c rest o h =
    let before = argument_from-before stop (suc start) 0 1 0 close rest (omega arith) in
    ground (arith, o, h, before)

matching_parenthesis-inside :
    (text : SqlText) (found : Found) (close : ℕ)
    → IsFound text found
    → matching_parenthesis text (found.end - 1) ≡ some close
    → first_argument_end text (found.end - 1 + 1) ≤ close
      × close < length text
      × found.end - 1 < close
unfolding matching_parenthesis first_argument_end
matching_parenthesis-inside text found close f h =
    let start = found.end - 1 in
    let tail = drop-tail start text f.rest f.bracket f.read in
    let inside =
      matching_from-inside (length text) start close f.bracket f.rest f.opened
        (ap (matching_from start 0 0) (sym f.read) ∙ h) in
    let whole = ap length tail ∙ refl in
    let place : start + 1 ≡ suc start = omega arith in
    rw (place, tail)
      (inside.0, omega (arith, inside.2, whole, length-drop (suc start) text, f.fits), inside.1)

module _ (texts : Texts)
    (strip-length : (text : SqlText) → length (texts.strip text) ≤ length text) where
  unwrapped-shorter :
      (text : SqlText) (found : Found) (close : ℕ)
      → found.begin < found.end - 1
      → first_argument_end text (found.end - 1 + 1) ≤ close
      → close < length text
      → found.end - 1 < close
      → length (unwrapped texts text found close) < length text
  unfolding unwrapped
  unwrapped-shorter text found close a b c d =
      let start = found.end - 1 + 1 in
      let stop = first_argument_end text start in
      omega (
        arith,
        a,
        b,
        c,
        d,
        length-append (take found.begin text)
            (texts.strip (slice start stop text) ++ drop (close + 1) text),
        length-append (texts.strip (slice start stop text)) (drop (close + 1) text),
        length-take found.begin text,
        length-drop (close + 1) text,
        strip-length (slice start stop text),
        length-take (stop - start) (drop start text),
      )

  module _
      (search-Found : (text : SqlText) (found : Found)
        → texts.search text ≡ some found
        → IsFound text found) where
    unwrap_at-shorter :
        (text result : SqlText) (found : Found)
        → texts.search text ≡ some found
        → unwrap_at texts text found ≡ some result
        → length result < length text
    unfolding unwrap_at
    unwrap_at-shorter text result found e h =
        elim (Option-cases (matching_parenthesis text (found.end - 1))) [
          | inl unclosed ↦ ground (arith, rw (unclosed, unwrap_at) at h)
          | inr (close, closed) ↦
              let f = search-Found text found e in
              let inside = matching_parenthesis-inside text found close f closed in
              let less = unwrapped-shorter text found close f.ordered inside.0 inside.1 inside.2 in
              ground (arith, less, rw (closed, unwrap_at) at h)
        ]

    unwrap_round-shorter :
        (text result : SqlText)
        → unwrap_round texts text ≡ some result
        → length result < length text
    unfolding unwrap_round
    unwrap_round-shorter text result h = elim (Option-cases (texts.search text)) [
      | inl unmatched ↦ ground (arith, rw (unmatched, unwrap_round) at h)
      | inr (found, matched) ↦
          unwrap_at-shorter text result found matched (rw (matched, unwrap_round) at h)
    ]

    remove_round_official-Ends :
        (fuel : ℕ) (text : SqlText)
        → length text < fuel
        → (result : SqlText) × (remove_round_official texts fuel text ≡ some result)
          × (unwrap_round texts result ≡ none)
          × length result ≤ length text
    unfolding remove_round_official
    remove_round_official-Ends zero text h = absurd (omega (arith, h))
    remove_round_official-Ends (suc fuel) text h = elim (Option-cases (unwrap_round texts text)) [
      | inl over ↦ (text, rw (over, remove_round_official) refl, over, omega arith)
      | inr (next, goes) ↦
          let less = unwrap_round-shorter text next goes in
          let end = remove_round_official-Ends fuel next (omega (arith, less, h)) in
          (end.0, rw (goes, remove_round_official) end.1, end.2, omega (arith, less, end.3))
    ]

    -- No parenthesis of a match is closed where the loop ends.
    unwrap_round-unclosed :
        (result : SqlText) (found : Found)
        → unwrap_round texts result ≡ none
        → texts.search result ≡ some found
        → matching_parenthesis result (found.end - 1) ≡ none
    unfolding unwrap_at unwrap_round
    unwrap_round-unclosed result found h e =
        elim (Option-cases (matching_parenthesis result (found.end - 1))) [
          | inl unclosed ↦ unclosed
          | inr (close, closed) ↦
              ground (arith, rw (closed, unwrap_at) at (rw (e, unwrap_round) at h))
        ]

    -- If `search` finds spans that end with an opening parenthesis and begin before it, and `strip`
    -- makes no text longer, the rewriting ends with a text that is no longer than what the removal of
    -- comments and of DISTINCT leaves; where it still has a match of ROUND, that match's parenthesis is
    -- not closed.
    pub rewrite_sql_official-Ends :
        (sql : SqlText)
        → (result : SqlText) × (rewrite_sql_official texts sql ≡ some result)
          × (length result
              ≤ length (remove_distinct_official texts (remove_comments_official texts sql)))
          × ((found : Found)
              → texts.search result ≡ some found
              → matching_parenthesis result (found.end - 1) ≡ none)
    unfolding rewrite_sql_official
    rewrite_sql_official-Ends sql =
        let text = remove_distinct_official texts (remove_comments_official texts sql) in
        let end = remove_round_official-Ends (suc (length text)) text (omega arith) in
        (end.0, end.1, end.3, λ found e. unwrap_round-unclosed end.0 found end.2 e)
