-- ===== src/Scoring/Sensitivity.antt =====
-- src/omni_benchmark/scoring.py: `_sensitivity_policy` and `sensitivity_equal`. Conditions that are no
-- mapping are `none`.
pub mod Multisets
use text.Mathlib.Text.{◌==◌ as str_eq}
use omni_benchmark.Prelude.{
  ℕ, String, Bool, true, false, ◌||◌, Option, none, some, List, [], ◌∷◌, ◌++◌, leb, ◌==◌, all,
  total, if◌then◌else◌, ℕ_discrete,
}
use omni_benchmark.Prelude.Text.{text_discrete}
use omni_benchmark.Scoring.Values.{Value, boolean, number, whole, Item}
use omni_benchmark.Scoring.Compare.{sensitivity_item}

abbrev pub Conditions : Type 0
Conditions = List (String × Value)

unfoldable pub condition : String → Conditions → Option Value
condition name [] = none
condition name (entry ∷ rest) =
    let later = condition name rest in if str_eq name entry.0 then some entry.1 else later

pub data PolicyError : Type 0 where
  not_a_mapping decimal_required decimal_not_integer : PolicyError
  decimal_not_public order_not_boolean : PolicyError

pub data Policy : Type 0 where
  policy : Option ℕ → Bool → Policy
  rejected : PolicyError → Policy

-- `decimal not in PUBLIC_DECIMAL_VALUES`, and `None if decimal == -1 else decimal`.
unfoldable pub public_places : Bool → ℕ → Option (Option ℕ)
public_places true n = if n == 1 then some none else if n == 0 then some (some 0) else none
public_places false n = if leb n 6 || n == 8 then some (some n) else none

unfoldable with_order : Option ℕ → Option Value → Policy
with_order places (some (boolean order)) = policy places order
with_order places _ = rejected order_not_boolean

unfoldable with_places : Option (Option ℕ) → Option Value → Policy
unfolding with_order
with_places none order = rejected decimal_not_public
with_places (some places) order = with_order places order

unfoldable with_decimal : Option Value → Option Value → Policy
unfolding public_places with_places
with_decimal none order = rejected decimal_required
with_decimal (some (number (whole negative n))) order = with_places (public_places negative n) order
with_decimal (some _) order = rejected decimal_not_integer

-- `_sensitivity_policy`
unfoldable pub sensitivity_policy : Option Conditions → Policy
unfolding condition with_decimal
sensitivity_policy none = rejected not_a_mapping
sensitivity_policy (some conditions) =
    with_decimal (condition "decimal" conditions) (condition "order" conditions)

unfoldable pub row_discrete : Discrete (List Item)
unfolding text_discrete ℕ_discrete
row_discrete = hlevel (text_discrete, ℕ_discrete)

unfoldable decides : {A : Type 0} → Dec A → Bool
decides (yes a) = true
decides (no f) = false

unfoldable pub same_row : List Item → List Item → Bool
unfolding row_discrete decides
same_row r s = decides (row_discrete r s)

-- `Counter(rows)[row]`
abbrev pub count : List Item → List (List Item) → ℕ
count row rows = total (λ r. if same_row row r then 1 else 0) rows

-- `Counter(predicted_rows) == Counter(gold_rows)`
abbrev pub same_counter : List (List Item) → List (List Item) → Bool
same_counter xs ys = all (λ r. count r xs == count r ys) (xs ++ ys)

-- `predicted_rows == gold_rows`
unfoldable pub same_rows : List (List Item) → List (List Item) → Bool
unfolding same_row
same_rows [] [] = true
same_rows (x ∷ xs) (y ∷ ys) = let rest = same_rows xs ys in if same_row x y then rest else false
same_rows _ _ = false

pub data Verdict : Type 0 where
  compared : Bool → Verdict
  policy_error : PolicyError → Verdict
  number_error : Verdict

abbrev pub collected {ℓ κ} : {A : Type ℓ} {B : Type κ} → (A → Option B) → List A → Option (List B)
collected f [] = some []
collected f (x ∷ xs) = elim (f x) [
  | none ↦ none
  | some y ↦ elim (collected f xs) [ none ↦ none | some ys ↦ some (y ∷ ys) ]
]

abbrev pub Rows : Type 0
Rows = List (List Value)

module _ (stable_key : Item → String) where
  -- `_normalize_rows`
  unfoldable pub normalize_rows : Option ℕ → Rows → Option (List (List Item))
  unfolding sensitivity_item
  normalize_rows places rows = collected (collected (sensitivity_item stable_key places)) rows

  unfoldable pub compare_rows :
      Bool → Option (List (List Item)) → Option (List (List Item)) → Verdict
  unfolding same_rows
  compare_rows ordered (some predicted) (some gold) =
      compared (if ordered then same_rows predicted gold else same_counter predicted gold)
  compare_rows ordered _ _ = number_error

  unfoldable pub sensitivity_equal : Rows → Rows → Option Conditions → Verdict
  unfolding sensitivity_policy normalize_rows compare_rows
  sensitivity_equal predicted gold conditions = elim (sensitivity_policy conditions) [
    | rejected error ↦ policy_error error
    | policy places ordered ↦
        compare_rows ordered (normalize_rows places predicted) (normalize_rows places gold)
  ]
