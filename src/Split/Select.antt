-- ===== src/Split/Select.antt =====
-- src/omni_benchmark/split.py: `_select_test_ids` and `create_split`. `sha256` is the digest of
-- hashlib, as hexadecimal digits; a set of identifiers is the list of them, in the order of insertion.
use omni_benchmark.Prelude.{
  all, any, ℕ, ◌+◌, String, Bool, true, false, not, ◌&&◌, ◌||◌, Option, none, some, List, [], ◌∷◌,
  ◌++◌, map, ◌==◌, length, take, keep, sort_by, if◌then◌else◌,
}
pub mod Ids
pub mod Groups
pub mod Picks
pub mod Create
use Prim.Native.String.{◌++◌ as append}
use text.Mathlib.Text.{◌==◌ as str_eq}
use omni_benchmark.Prelude.Text.{text_le, text_lt, member}
use omni_benchmark.Split.{Question}
use omni_benchmark.Split.Apportion.{allocate_proportionally}

abbrev pub chain {ℓ} : {A B : Type ℓ} → Option A → (A → Option B) → Option B
chain none f = none
chain (some a) f = f a

abbrev pub Groups : Type 0
Groups = List (String × List Question)

-- `by_database[record["selected_database"]].append(record)`
unfoldable pub file : Question → Groups → Groups
file q [] = (q.selected_database, q ∷ []) ∷ []
file q ((database, questions) ∷ rest) =
    let later = file q rest in
    if str_eq database q.selected_database
    then (database, questions ++ (q ∷ [])) ∷ rest
    else (database, questions) ∷ later

unfoldable pub file_all : Groups → List Question → Groups
file_all groups [] = groups
file_all groups (q ∷ questions) = file_all (file q groups) questions

-- `selected.add`, and `selected.update`
unfoldable pub add_id : String → List String → List String
add_id s ids = if member s ids then ids else s ∷ ids

unfoldable pub add_ids : List String → List String → List String
unfolding add_id
add_ids [] ids = ids
add_ids (s ∷ more) ids = add_ids more (add_id s ids)

-- `str` of a stratum
abbrev pub level_name : Bool → String
level_name true = "True"
level_name false = "False"

-- `record["high_level"] is high_level`
abbrev pub at_level : Bool → Question → Bool
at_level true q = q.high_level
at_level false q = not q.high_level

unfoldable pub stratum : Bool → List Question → List Question
stratum level questions = keep (at_level level) questions

-- `nonempty_counts`
unfoldable pub stratum_counts : List Question → List (Bool × ℕ)
unfolding stratum
stratum_counts questions =
    keep (λ entry. not (entry.1 == 0))
      ((false, length (stratum false questions)) ∷ (true, length (stratum true questions)) ∷ [])

abbrev pub ids_of : List Question → List String
ids_of questions = map (λ q. q.instance_id) questions

-- `database_test_counts[database]`
unfoldable pub count_of : String → List (String × ℕ) → Option ℕ
count_of s [] = none
count_of s ((t, n) ∷ rest) = let later = count_of s rest in if str_eq s t then some n else later

pub record Split : Type 0 where
  pub train_ids : List String
  pub test_ids : List String

pub data SplitOutcome : Type 0 where
  created : Split → SplitOutcome
  seed_empty : SplitOutcome
  outer_invalid : SplitOutcome
  sizes_differ : SplitOutcome
  sizes_not_fixed : SplitOutcome
  not_allocated : SplitOutcome
  cardinality_failed : SplitOutcome

-- The end of `create_split`, from `test_ids`, with `all_ids` for the identifiers that are split; its
-- files and its metadata are left out.
unfoldable pub check_split : List String → ℕ → ℕ → Option (List String) → SplitOutcome
check_split all_ids train_size test_size none = not_allocated
check_split all_ids train_size test_size (some test_ids) =
    let train_ids = keep (λ s. not (member s test_ids)) all_ids in
    if not (length train_ids == train_size) || not (length test_ids == test_size)
    then cardinality_failed
    else created (record { train_ids = train_ids; test_ids = test_ids })

module _ (sha256 : String → String) (seed : String) where
  -- The digest of `_keyed_order`.
  pub keyed_digest : Question → String
  keyed_digest q = sha256 (
      append seed (
        append "\0" (
          append q.selected_database (
            append "\0"
              (append (if q.high_level then "true" else "false") (append "\0" q.instance_id))))))

  -- The order of the tuples of `_keyed_order`.
  pub keyed_before : Question → Question → Bool
  unfolding keyed_digest
  keyed_before x y =
      text_lt (keyed_digest x) (keyed_digest y)
      || (str_eq (keyed_digest x) (keyed_digest y) && text_le x.instance_id y.instance_id)

  -- `ordered[:count]`
  unfoldable pub picked : List Question → Bool × ℕ → List String
  unfolding keyed_before stratum
  picked questions (level, count) =
      ids_of (take count (sort_by keyed_before (stratum level questions)))

  -- `for high_level, count in stratum_test_counts.items()`
  unfoldable pub select_strata : List Question → List (Bool × ℕ) → List String → List String
  unfolding picked add_ids
  select_strata questions [] selected = selected
  select_strata questions (entry ∷ rest) selected =
      select_strata questions rest (add_ids (picked questions entry) selected)

  -- The body of the loop over the databases.
  unfoldable pub select_group : List Question → ℕ → List String → Option (List String)
  unfolding stratum_counts select_strata allocate_proportionally
  select_group questions count selected =
      chain (allocate_proportionally level_name (stratum_counts questions) count)
        (λ shares. some (select_strata questions shares selected))

  unfoldable pub select_groups : List (String × ℕ) → Groups → List String → Option (List String)
  unfolding count_of select_group
  select_groups counts [] selected = some selected
  select_groups counts ((database, questions) ∷ rest) selected =
      chain (count_of database counts)
        (λ count. chain (select_group questions count selected) (select_groups counts rest))

  -- `_select_test_ids`
  unfoldable pub select_test_ids : Groups → ℕ → Option (List String)
  unfolding allocate_proportionally select_groups
  select_test_ids groups test_size =
      chain
        (allocate_proportionally (λ s. s) (map (λ group. (group.0, length group.1)) groups)
          test_size)
        (λ counts. select_groups counts (sort_by (λ x y. text_le x.0 y.0) groups) [])

  unfoldable pub create_split : List Question → ℕ → ℕ → SplitOutcome
  unfolding check_split file_all select_test_ids add_ids
  create_split questions train_size test_size =
      if str_eq seed ""
      then seed_empty
      else if not (train_size + test_size == length questions)
      then sizes_differ
      else if not (train_size == 231 && test_size == 101)
      then sizes_not_fixed
      else check_split (add_ids (ids_of questions) []) train_size test_size
          (select_test_ids (file_all [] questions) test_size)

  -- `_validate_outer_split`, from the identifiers of the two artifacts, which hold none twice.
  unfoldable pub validate_outer_split : List Question → List String → List String → Bool
  validate_outer_split questions train_ids test_ids =
      let all_ids = ids_of questions in
      not (any (λ s. member s test_ids) train_ids)
      && all (λ s. member s all_ids) (train_ids ++ test_ids)
      && all (λ s. member s (train_ids ++ test_ids)) all_ids
      && length train_ids == 231

  unfoldable pub create_development_split :
      List Question → List String → List String → ℕ → ℕ → SplitOutcome
  unfolding check_split file_all select_test_ids validate_outer_split
  create_development_split questions train_ids outer_test_ids dev_a_size dev_b_size =
      if str_eq seed ""
      then seed_empty
      else if not (validate_outer_split questions train_ids outer_test_ids)
      then outer_invalid
      else if not (dev_a_size + dev_b_size == length train_ids)
      then sizes_differ
      else if not (dev_a_size == 154 && dev_b_size == 77)
      then sizes_not_fixed
      else check_split train_ids dev_a_size dev_b_size (
          select_test_ids (file_all [] (keep (λ q. member q.instance_id train_ids) questions))
            dev_b_size)
