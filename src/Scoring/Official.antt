-- ===== src/Scoring/Official.antt =====
-- src/omni_benchmark/scoring.py: `official_soft_ex_equal`, for rows whose values can be hashed. A
-- `sequence` is a Python list. `to_float` is the `str` of the float nearest to a Decimal, `dumps` is
-- `json.dumps`, with `none` for a TypeError, and `same` Python's `==` of two values.
pub mod Symmetry
use omni_benchmark.Prelude.{
  ℕ, String, Bool, true, false, ◌&&◌, ◌||◌, Option, none, some, List, [], ◌∷◌, all, any, is_empty,
  if◌then◌else◌,
}
use omni_benchmark.Action.{Result, ok, raise}
use omni_benchmark.Scoring.Values.{
  Decimal, minus, quantized, as_decimal, Value, null, date, boolean, number, whole, decimal, float,
  nan, infinity, string, mapping, sequence, tuple, python, Pairs, no_more, pair, Values, ended,
  next,
}
use omni_benchmark.Scoring.Sensitivity.{
  Conditions, condition, order_not_boolean, Verdict, compared, policy_error, Rows,
}

pub record Interpreter : Type 0 where
  pub to_float : Decimal → Decimal
  pub dumps : Value → Option String
  pub same : Value → Value → Bool

-- An InvalidOperation of Decimal, and the TypeError of `json.dumps`.
pub data Raised : Type 0 where
  invalid_operation type_error : Raised

abbrev then_value : {A B : Type 0} → Result Raised A → (A → Result Raised B) → Result Raised B
then_value (raise e) f = raise e
then_value (ok a) f = f a

abbrev text_or_raise : Option String → Result Raised Value
text_or_raise none = raise type_error
text_or_raise (some s) = ok (string s)

-- A comprehension: the first exception ends it.
abbrev pub normalized : {A B : Type 0} → (A → Result Raised B) → List A → Result Raised (List B)
normalized f [] = ok []
normalized f (x ∷ xs) =
    let later = normalized f xs in then_value (f x) (λ y. then_value later (λ ys. ok (y ∷ ys)))

-- `_official_order`, with `none` for its error.
unfoldable pub order_of : Option Value → Option Bool
order_of none = some false
order_of (some (boolean order)) = some order
order_of (some _) = none

unfoldable pub official_order : Option Conditions → Option Bool
unfolding condition order_of
official_order none = some false
official_order (some conditions) = order_of (condition "order" conditions)

-- `==` of two rows, and of two lists of rows.
abbrev pub same_list {ℓ} : {A : Type ℓ} → (A → A → Bool) → List A → List A → Bool
same_list test [] [] = true
same_list test (x ∷ xs) (y ∷ ys) = test x y && same_list test xs ys
same_list test _ _ = false

module _ (interpreter : Interpreter) where
  -- `float(_quantize_number(value, 2))`
  unfoldable pub official_number : Decimal → Value
  unfolding quantized
  official_number d = number (
      float (
        interpreter.to_float
          (record { negative = d.negative; coefficient = quantized d 2; exponent = minus 2 })))

  -- `_official_recursive`, with two places.
  unfoldable mutual
    unfolding official_number

    pub official_recursive : Value → Result Raised Value
    official_recursive (number (decimal d)) = ok (official_number d)
    official_recursive (number (float d)) = ok (official_number d)
    official_recursive (number nan) = ok (number nan)
    official_recursive (number (infinity negative)) = raise invalid_operation
    official_recursive (number (whole negative n)) = ok (number (whole negative n))
    official_recursive (sequence vs) =
        then_value (official_values vs) (λ items. ok (sequence items))
    official_recursive (tuple vs) = then_value (official_values vs) (λ items. ok (tuple items))
    official_recursive (mapping ps) = then_value (official_pairs ps) (λ pairs. ok (mapping pairs))
    official_recursive null = ok null
    official_recursive (date s) = ok (date s)
    official_recursive (boolean b) = ok (boolean b)
    official_recursive (string s) = ok (string s)
    official_recursive (python type repr) = ok (python type repr)

    pub official_values : Values → Result Raised Values
    official_values ended = ok ended
    official_values (next v vs) =
        then_value (official_recursive v)
          (λ item. then_value (official_values vs) (λ items. ok (next item items)))

    pub official_pairs : Pairs → Result Raised Pairs
    official_pairs no_more = ok no_more
    official_pairs (pair key v rest) =
        then_value (official_recursive v)
          (λ item. then_value (official_pairs rest) (λ pairs. ok (pair key item pairs)))

  abbrev dumped : Value → Result Raised Value
  dumped (sequence vs) = text_or_raise (interpreter.dumps (sequence vs))
  dumped (mapping ps) = text_or_raise (interpreter.dumps (mapping ps))
  dumped v = ok v

  -- `_official_item`
  unfoldable pub official_item : Value → Result Raised Value
  unfolding official_recursive
  official_item (date s) = ok (string s)
  official_item v = then_value (official_recursive v) dumped

  abbrev pub same_values : List Value → List Value → Bool
  same_values xs ys = same_list interpreter.same xs ys

  -- Whether each row of one list is a row of the other.
  abbrev pub included : List (List Value) → List (List Value) → Bool
  included xs ys = all (λ r. any (same_values r) ys) xs

  -- `set(predicted_rows) == set(gold_rows)`
  abbrev pub same_set : List (List Value) → List (List Value) → Bool
  same_set xs ys = included xs ys && included ys xs

  abbrev pub ordered_or_not : Option Bool → List (List Value) → List (List Value) → Verdict
  ordered_or_not none xs ys = policy_error order_not_boolean
  ordered_or_not (some true) xs ys = compared (same_list same_values xs ys)
  ordered_or_not (some false) xs ys = compared (same_set xs ys)

  unfoldable pub compare_official :
      Option Conditions
      → Result Raised (List (List Value))
      → Result Raised (List (List Value))
      → Result Raised Verdict
  unfolding official_order
  compare_official conditions (raise e) gold = raise e
  compare_official conditions (ok predicted) (raise e) = raise e
  compare_official conditions (ok predicted) (ok gold) = ok (
      if is_empty predicted || is_empty gold
      then compared false
      else ordered_or_not (official_order conditions) predicted gold)

  unfoldable pub official_soft_ex_equal : Rows → Rows → Option Conditions → Result Raised Verdict
  unfolding official_item compare_official
  official_soft_ex_equal predicted gold conditions =
      compare_official conditions (normalized (normalized official_item) predicted)
        (normalized (normalized official_item) gold)
