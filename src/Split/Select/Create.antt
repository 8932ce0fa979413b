-- ===== src/Split/Select/Create.antt =====
-- split.py: `_select_test_ids` selects as many questions as it is asked for, and `create_split` never
-- ends with its internal cardinality error.
use omni_benchmark.Prelude.{
  length-map, ◌||◌, ==_iff, ℕ, ◌+◌, ◌≤◌, ◌<◌, ◌==◌, ◌≡◌, refl, ap, sym, ◌∙◌, String, false, not,
  Option, some, List, [], ◌∷◌, ◌++◌, length, length-append, keep, total, total-append, total-map,
  total-keep, total-sort_by, total-length, All, All-zip, All-sort_by, All-under_map, arith,
  Bool-cases, inl, inr, sort_by,
}
use text.Mathlib.Text.{◌==◌ as str_eq}
use omni_benchmark.Prelude.Text.{text_le, hits, occurrences, member}
use omni_benchmark.Split.{Question}
use omni_benchmark.Split.Apportion.{share}
use omni_benchmark.Split.Apportion.Bumps.{sharing}
use omni_benchmark.Split.Apportion.Quotas.{IsRounded, allocate_proportionally-IsRounded}
use omni_benchmark.Split.Select.{
  Groups, chain, add_ids, file_all, ids_of, count_of, select_groups, select_test_ids, Split,
  SplitOutcome, created, check_split, create_split,
}
use omni_benchmark.Split.Select.Ids.{
  add_ids-append, add_ids-length, add_ids-occurrences, IsFresh, same_length, keep-occurrences,
  absent, present,
}
use omni_benchmark.Split.Select.Groups.{
  seen, occurrences-ids_of, grand_total, sizes, IsGrouped, file_all-total, file_all-IsGrouped,
  count_of-sharing,
}
use omni_benchmark.Split.Select.Picks.{Adds, select_group-Adds}

total-sizes : (groups : Groups) → total share (sizes groups) ≡ grand_total (λ q. 1) groups
total-sizes [] = refl
total-sizes (g ∷ rest) = omega (arith, total-sizes rest, total-length g.1)

-- A split of `all_ids` in two parts of the sizes that were asked for: each identifier is in one part.
pub record Parts (all_ids : List String) (train_size test_size : ℕ) (r : SplitOutcome)
    : Type 0 where
  pub split : Split
  pub result : r ≡ created split
  pub train_count : length split.train_ids ≡ train_size
  pub test_count : length split.test_ids ≡ test_size
  pub parts :
      (s : String)
      → occurrences s split.train_ids + occurrences s split.test_ids ≡ occurrences s all_ids

kept_lem :
    (all_ids test_ids : List String) (s : String)
    → occurrences s all_ids ≤ 1
    → occurrences s test_ids ≤ occurrences s all_ids
    → occurrences s (keep (λ t. member t test_ids) all_ids) ≡ occurrences s test_ids
kept_lem all_ids test_ids s h k = elim (Bool-cases (occurrences s test_ids == 0)) [
  | inl e ↦
      let zero_times = (==_iff _ _).0 e in
      keep-occurrences s (λ t. member t test_ids) all_ids
      ∙ rw (absent s test_ids zero_times) (sym zero_times)
  | inr e ↦
      let once : 0 < occurrences s test_ids = ground (arith, e) in
      keep-occurrences s (λ t. member t test_ids) all_ids
      ∙ rw (present s test_ids once) (omega (arith, h, k, once))
]

sizes_fit : (a b c d : ℕ) → a ≡ b → c ≡ d → (not (a == b) || not (c == d)) ≡ false
sizes_fit a b c d p q = ground arith

check_split-Parts :
    (all_ids ids : List String) (train_size test_size : ℕ)
    → ((s : String) → occurrences s all_ids ≤ 1)
    → ((s : String) → occurrences s ids ≤ occurrences s all_ids)
    → length ids ≡ test_size
    → length all_ids ≡ train_size + test_size
    → Parts all_ids train_size test_size
        (check_split all_ids train_size test_size (some (add_ids ids [])))
unfolding check_split
check_split-Parts all_ids ids train_size test_size h k e f =
    let fresh : IsFresh ids [] = λ s. omega (arith, h s, k s) in
    let test_ids = add_ids ids [] in
    let same = λ (s : String). add_ids-occurrences ids [] fresh s in
    let kept = λ (s : String). kept_lem all_ids test_ids s (h s) (omega (arith, same s, k s)) in
    let out = keep (λ s. not (member s test_ids)) all_ids in
    let taken = keep (λ s. member s test_ids) all_ids in
    let count = add_ids-length ids [] fresh in
    let halves = total-keep (λ _. 1) (λ s. member s test_ids) all_ids in
    let out_count : length out ≡ train_size = omega (
      arith,
      halves,
      total-length taken,
      total-length out,
      total-length all_ids,
      f,
      count,
      e,
      same_length taken test_ids kept,
    ) in
    let test_count : length test_ids ≡ test_size = omega (arith, count, e) in
    record {
      split = record { train_ids = out; test_ids = test_ids };
      result = rw (sizes_fit _ _ _ _ out_count test_count) refl;
      train_count = out_count;
      test_count = test_count;
      parts = λ s. omega (arith, kept s, total-keep (hits s) (λ s. member s test_ids) all_ids);
    }

module _ (sha256 : String → String) (seed : String) where
  -- What the loop over the databases needs of a group and of its share.
  record IsReady (counts : List (String × ℕ)) (n : String × List Question → ℕ)
      (g : String × List Question) : Type 0 where
    known : count_of g.0 counts ≡ some (n g)
    enough : n g ≤ length g.1
    used : 0 < length g.1

  chain_Adds :
      (n m : ℕ) (f h : String → ℕ) (selected : List String) (r : Option (List String))
      (next : List String → Option (List String))
      → Adds n f selected r
      → ((more : List String) → Adds m h more (next more))
      → Adds (n + m) (λ s. f s + h s) selected (chain r next)
  chain_Adds n m f h selected r next a b =
      let c = b (add_ids a.ids selected) in
      record {
        ids = a.ids ++ c.ids;
        result =
            ap (λ x. chain x next) a.result
            ∙ c.result
            ∙ ap some (sym (add_ids-append a.ids c.ids selected));
        size = omega (arith, length-append a.ids c.ids, a.size, c.size);
        from = λ s. omega (arith, total-append (hits s) a.ids c.ids, a.from s, c.from s);
      }

  select_groups-Adds :
      (counts : List (String × ℕ)) (n : String × List Question → ℕ) (groups : Groups)
      (selected : List String)
      → All (IsReady counts n) groups
      → Adds
          (total n groups)
          (λ s. grand_total (seen s) groups)
          selected
          (select_groups sha256 seed counts groups selected)
  unfolding select_groups add_ids
  select_groups-Adds counts n [] selected h = record {
    ids = [];
    result = refl;
    size = refl;
    from = λ s. omega arith;
  }
  select_groups-Adds counts n ((database, questions) ∷ rest) selected h = rw h.0.known (
      chain_Adds (n (database, questions)) (total n rest) (λ s. total (seen s) questions)
        (λ s. grand_total (seen s) rest) selected _ _
        (select_group-Adds sha256 seed questions _ selected h.0.enough h.0.used)
        (λ more. select_groups-Adds counts n rest more h.1))

  -- `_select_test_ids` selects as many identifiers as it is asked for, of the questions of the groups.
  select_test_ids-Adds :
      (groups : Groups) (test_size : ℕ)
      → IsGrouped groups
      → test_size ≤ grand_total (λ q. 1) groups
      → 0 < grand_total (λ q. 1) groups
      → Adds test_size
          (λ s. grand_total (seen s) groups)
          []
          (select_test_ids sha256 seed groups test_size)
  unfolding select_test_ids
  select_test_ids-Adds groups test_size g h p =
      let count = total-sizes groups in
      let shared =
        allocate_proportionally-IsRounded (λ s. s) (sizes groups) test_size g.0
          (omega (arith, count, h)) (omega (arith, count, p)) in
      let counts = sharing (λ s. s) shared.0 (sizes groups) in
      let n = λ (g : String × List Question). shared.0 (g.0, length g.1) in
      let ready : All (IsReady counts n) groups =
        All-zip groups
          (λ x known
              (r : IsRounded (λ s. s) test_size (total share (sizes groups)) (x.0, length x.1) (n x)
                × (0 < length x.1)).
            record { known = known; enough = r.0.within; used = r.1 })
          (All-under_map _ _ groups (count_of-sharing shared.0 (sizes groups) g.0))
          (All-zip groups (λ x r u. (r, u)) (All-under_map _ _ groups shared.3) g.1) in
      let ordered = sort_by (λ (x y : String × List Question). text_le x.0 y.0) groups in
      let found =
        select_groups-Adds counts n ordered [] (All-sort_by (IsReady counts n) _ groups ready) in
      record {
        ids = found.ids;
        result =
            ap (λ r. chain r (λ shares. select_groups sha256 seed shares ordered [])) shared.1
            ∙ found.result;
        size =
            found.size
            ∙ total-sort_by n (λ (x y : String × List Question). text_le x.0 y.0) groups
            ∙ sym (total-map shared.0 (λ (g : String × List Question). (g.0, length g.1)) groups)
            ∙ shared.2;
        from = λ s. omega (
          arith,
          found.from s,
          total-sort_by (λ (g : String × List Question). total (seen s) g.1)
              (λ (x y : String × List Question). text_le x.0 y.0) groups,
        );
      }

  create_split-passes :
      (questions : List Question)
      → str_eq seed "" ≡ false
      → length questions ≡ 332
      → create_split sha256 seed questions 231 101
        ≡ check_split
            (add_ids (ids_of questions) [])
            231
            101
            (select_test_ids sha256 seed (file_all [] questions) 101)
  unfolding create_split
  create_split-passes questions e size = rw (e, size) refl

  -- If the seed is not empty and the 332 questions have different identifiers, `create_split` with the
  -- sizes 231 and 101 creates a split: it never ends with the internal cardinality error, and each
  -- identifier is in exactly one of the two sets, which have those sizes.
  pub create_split-Parts :
      (questions : List Question)
      → str_eq seed "" ≡ false
      → length questions ≡ 332
      → ((s : String) → occurrences s (ids_of questions) ≤ 1)
      → Parts (ids_of questions) 231 101 (create_split sha256 seed questions 231 101)
  create_split-Parts questions e size once =
      let groups = file_all [] questions in
      let amount = file_all-total (λ _. 1) [] questions in
      let found =
        select_test_ids-Adds groups 101 (file_all-IsGrouped [] questions (tt, tt))
          (omega (arith, amount, size, total-length questions))
          (omega (arith, amount, size, total-length questions)) in
      let all_ids = add_ids (ids_of questions) [] in
      let all_fresh : IsFresh (ids_of questions) [] = λ s. omega (arith, once s) in
      let same = λ (s : String). add_ids-occurrences (ids_of questions) [] all_fresh s in
      let parts =
        check_split-Parts all_ids found.ids 231 101 (λ s. omega (arith, same s, once s))
          (λ s. omega (
            arith,
            same s,
            found.from s,
            file_all-total (seen s) [] questions,
            occurrences-ids_of s questions,
          ))
          found.size
          (omega (
            arith,
            add_ids-length (ids_of questions) [] all_fresh,
            size,
            length-map (λ (q : Question). q.instance_id) questions,
          )) in
      record {
        split = parts.split;
        result =
            create_split-passes questions e size
            ∙ ap (check_split all_ids 231 101) found.result
            ∙ parts.result;
        train_count = parts.train_count;
        test_count = parts.test_count;
        parts = λ s. omega (arith, parts.parts s, same s);
      }
