-- ===== src/Examples/Rows.antt =====
-- Two results with the same rows in another order, one of them with a mapping.
use omni_benchmark.Prelude.{
  none, suc, ◌==◌, ℕ, ◌≡◌, ◌↔◌, refl, Bool, true, false, arith, some, List, [], ◌∷◌,
}
use omni_benchmark.Scoring.Values.{
  float, Value, pair, no_more, number, whole, decimal, string, null, mapping, boolean, Item,
  Decimal, down, number_item, string_item, mapping_item, pair_item, no_pairs, null_item, quantized,
  quantize_with,
}
use omni_benchmark.Scoring.Values.Rounding.{quantize_with-quantized}
use omni_benchmark.Scoring.Sensitivity.{
  Conditions, Rows, count, policy, sensitivity_policy, normalize_rows, sensitivity_equal, compared,
}
use omni_benchmark.Scoring.Official.{Interpreter, official_soft_ex_equal}
use omni_benchmark.Scoring.Official.Symmetry.{IsSymmetric, official_soft_ex_equal-IsSymmetric}
use omni_benchmark.Action.{ok}
use omni_benchmark.Scoring.Sensitivity.Multisets.{sensitivity_equal_iff}

abbrev price : Bool → ℕ → Decimal
price negative n = record { negative = negative; coefficient = n; exponent = down 2 }

abbrev conditions : Conditions
conditions = ("decimal", number (whole false 2)) ∷ ("order", boolean false) ∷ []

abbrev tags : Value
tags = mapping (pair (string "a") null no_more)

abbrev predicted : Rows
predicted = (number (decimal (price false 1005)) ∷ tags ∷ []) ∷ (null ∷ null ∷ []) ∷ []

abbrev gold : Rows
gold = (null ∷ null ∷ []) ∷ (number (decimal (price false 1009)) ∷ tags ∷ []) ∷ []

abbrev item_of : ℕ → List Item
item_of n =
    number_item false n (down 1)
    ∷ mapping_item (pair_item (string_item "a") null_item no_pairs)
    ∷ []

abbrev predicted_rows : List (List Item)
predicted_rows = item_of 101 ∷ (null_item ∷ null_item ∷ []) ∷ []

abbrev gold_rows : List (List Item)
gold_rows = (null_item ∷ null_item ∷ []) ∷ item_of 101 ∷ []

asked : sensitivity_policy (some conditions) ≡ policy (some 2) false
unfolding sensitivity_policy
asked = refl

predicted_items : normalize_rows (λ i. "") (some 2) predicted ≡ some predicted_rows
unfolding normalize_rows
predicted_items = refl

gold_items : normalize_rows (λ i. "") (some 2) gold ≡ some gold_rows
unfolding normalize_rows
gold_items = refl

equal : sensitivity_equal (λ i. "") predicted gold (some conditions) ≡ compared true
unfolding sensitivity_equal
equal = refl

-- A number that is rounded to a negative zero differs from one that is rounded to zero.
zeros_differ :
    sensitivity_equal
      (λ i. "")
      ((number (decimal (price true 4)) ∷ []) ∷ [])
      ((number (decimal (price false 4)) ∷ []) ∷ [])
      (some conditions)
    ≡ compared false
unfolding sensitivity_equal
zeros_differ = refl

sensitivity_equal_iff_example :
    (sensitivity_equal (λ i. "") predicted gold (some conditions) ≡ compared true)
    ↔ ((r : List Item) → count r predicted_rows ≡ count r gold_rows)
sensitivity_equal_iff_example =
    sensitivity_equal_iff (λ i. "") predicted gold (some conditions) (some 2) predicted_rows
      gold_rows asked predicted_items gold_items

quantize_with-quantized_example :
    quantize_with 1 (price false 1005) 2 ≡ some (quantized (price false 1005) 2)
quantize_with-quantized_example = quantize_with-quantized 1 (price false 1005) 2

abbrev weight : Value → ℕ
weight (number (float d)) = suc d.coefficient
weight (string s) = 1
weight _ = 0

abbrev interpreter : Interpreter
interpreter = record {
  to_float = λ d. d;
  dumps = λ v. some "{}";
  same = λ x y. weight x == weight y;
}

same-sym : (x y : Value) → interpreter.same x y ≡ interpreter.same y x
same-sym x y = ground arith

official : official_soft_ex_equal interpreter predicted gold none ≡ ok (compared true)
unfolding official_soft_ex_equal
official = refl

official_soft_ex_equal-IsSymmetric_example :
    IsSymmetric
      (official_soft_ex_equal interpreter predicted gold (some conditions))
      (official_soft_ex_equal interpreter gold predicted (some conditions))
official_soft_ex_equal-IsSymmetric_example =
    official_soft_ex_equal-IsSymmetric interpreter same-sym predicted gold (some conditions)
