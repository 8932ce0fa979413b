-- ===== src/Pairs.antt =====
-- src/omni_benchmark/r2_paired_schedule.py: the paired schedule, from the values that its four inputs
-- are decoded to. A dict is its list of entries; `frame` puts the length of a text before it, and a
-- digest is its hexadecimal digits.
pub mod Rounds
pub mod Build
pub mod Extras
pub mod Arms
pub mod Firsts
pub mod Visits
pub mod Balanced
pub mod Complete
pub mod Asserted
use Prim.Native.String.{◌++◌ as append, slice}
use text.Mathlib.Text.{◌==◌ as str_eq}
use omni_benchmark.Prelude.Text.{text_le, member, hits, is_blank}
use omni_benchmark.Prelude.{
  ℕ, zero, suc, ◌+◌, ◌-◌, ◌*◌, ◌/◌, ◌%◌, String, Bool, true, false, not, ◌&&◌, ◌||◌, Option, none,
  some, List, [], ◌∷◌, ◌++◌, map, ◌==◌, ltb, any, all, is_empty, length, get_elem?, take, count_up,
  concat_map, keep, total, sort_by, if◌then◌else◌,
}
use omni_benchmark.Action.{Result, ok, raise, raise_if}
use omni_benchmark.Schedule.{is_distinct, is_same}

-- `CONTROL_CONDITION` and `TREATMENT_CONDITION`
pub data Arm : Type 0 where
  control treatment : Arm

abbrev pub condition_text : Arm → String
condition_text control = "R2-C5B"
condition_text treatment = "R2-M1"

abbrev pub is_arm : Arm → Arm → ℕ
is_arm control control = 1
is_arm treatment treatment = 1
is_arm a b = 0

-- `_other_condition`
abbrev pub other_condition : Arm → Arm
other_condition control = treatment
other_condition treatment = control

pub data PairError : Type 0 where
  count_not_positive odd_pair_count seed_invalid targets_invalid ids_repeated : PairError
  id_unknown ids_not_sorted metadata_invalid dev_a_count_differs : PairError
  database_empty pair_count_differs odd_strata condition_missing : PairError
  count_failed instance_repeated identity_collision : PairError
  global_balance_failed database_balance_failed adjacency_failed : PairError

pub record Pair : Type 0 where
  pub database : String
  pub database_round : ℕ
  pub first_condition : Arm
  pub instance_id : String
  pub pair_id : String
  pub pair_position : ℕ
  pub second_condition : Arm

pub record PairAttempt : Type 0 where
  pub attempt_id : String
  pub attempt_position : ℕ
  pub condition : Arm
  pub database : String
  pub instance_id : String
  pub pair_id : String
  pub pair_position : ℕ
  pub within_pair_position : ℕ

pub record Building : Type 0 where
  pub pairs : List Pair
  pub attempts : List PairAttempt

abbrev pub ByDatabase : Type 0
ByDatabase = List (String × List String)

-- `d[key]`, and `none` for a `KeyError`
abbrev pub value_of {ℓ} : {A : Type ℓ} → String → List (String × A) → Option A
value_of key [] = none
value_of key ((k, a) ∷ entries) =
    let later = value_of key entries in if str_eq key k then some a else later

abbrev pub is_value : Option String → String → Bool
is_value none s = false
is_value (some t) s = str_eq t s

-- `by_database`
unfoldable pub by_database : List String → List (String × String) → List String → ByDatabase
by_database targets public_records dev_a_ids =
    map (λ d. (d, keep (λ s. is_value (value_of s public_records) d) dev_a_ids)) targets

abbrev pub is_odd : ℕ → Bool
is_odd n = n % 2 == 1

-- `result[instance_id]` by the index, over the ids in their order
unfoldable pub arms : ℕ → List String → List (String × Arm)
arms control_count [] = []
arms zero (s ∷ ids) = (s, treatment) ∷ arms zero ids
arms (suc control_count) (s ∷ ids) = (s, control) ∷ arms control_count ids

-- The digests and their seed; `digits` is the `str` of a position.
pub record Hashing : Type 0 where
  pub sha256 : String → String
  pub frame : String → String
  pub digits : ℕ → String
  pub seed : String

module _ (k : Hashing) where
  abbrev framed : List String → String
  framed [] = ""
  framed (item ∷ items) = append (k.frame item) (framed items)

  -- `_order_key`
  unfoldable pub pair_key : String → List String → String
  pair_key domain parts = k.sha256 (framed (domain ∷ k.seed ∷ parts))

  -- `_stable_id`
  unfoldable pub stable_id : String → List String → String
  unfolding pair_key
  stable_id prefix parts = append prefix (append "-" (slice (pair_key prefix parts) 0 24))

  -- `sorted(values, key=…)`
  abbrev pub ordered_by : (String → String) → List String → List String
  ordered_by key values = sort_by (λ s t. text_le (key s) (key t)) values

  unfoldable pub odd_databases : ByDatabase → List String
  unfolding pair_key
  odd_databases groups =
      ordered_by (λ s. pair_key "odd-extra" (s ∷ []))
        (map (λ g. g.0) (keep (λ g. is_odd (length g.1)) groups))

  unfoldable pub assigned : List String → String × List String → List (String × Arm)
  unfolding pair_key arms
  assigned control_extra (database, instance_ids) =
      let ordered = ordered_by (λ s. pair_key "first-arm" (database ∷ s ∷ [])) instance_ids in
      arms (length ordered / 2 + (if member database control_extra then 1 else 0)) ordered

  -- `_first_condition_assignments`
  unfoldable pub first_condition_assignments : ByDatabase → Result PairError (List (String × Arm))
  unfolding odd_databases assigned
  first_condition_assignments groups =
      let odd = odd_databases groups in
      raise_if (is_odd (length odd)) odd_strata
        (ok (concat_map (assigned (take (length odd / 2) odd)) groups))
