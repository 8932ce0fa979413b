-- ===== src/Scoring/Values.antt =====
-- src/omni_benchmark/scoring.py: the values of a result row, and how the sensitivity comparator
-- normalizes them. A number that has no finite Decimal is `nan` or `infinity`; a float is the Decimal
-- of its `str`; a date is its text by `%Y-%m-%d`. `none` is an InvalidOperation of Decimal.
pub mod Rounding
use omni_benchmark.Prelude.{
  ℕ, zero, suc, ◌+◌, ◌-◌, ◌*◌, ◌/◌, ◌%◌, String, Bool, true, false, ◌&&◌, ◌||◌, Option, none, some,
  leb, ltb, ◌==◌, if◌then◌else◌,
}
use Prim.Native.Nat.{max}
use omni_benchmark.Prelude.Text.{text_discrete, text_le}

-- A power of ten: `up n` is the exponent n, and `down n` is -(n + 1).
pub data Exponent : Type 0 where
  up down : ℕ → Exponent

pub record Decimal : Type 0 where
  pub negative : Bool
  pub coefficient : ℕ
  pub exponent : Exponent

pub data Number : Type 0 where
  whole : Bool → ℕ → Number
  decimal float : Decimal → Number
  nan : Number
  infinity : Bool → Number

mutual
  pub data Value : Type 0 where
    null : Value
    date : String → Value
    boolean : Bool → Value
    number : Number → Value
    string : String → Value
    mapping : Pairs → Value
    sequence tuple : Values → Value
    python : String → String → Value

  pub data Pairs : Type 0 where
    no_more : Pairs
    pair : Value → Value → Pairs → Pairs

  pub data Values : Type 0 where
    ended : Values
    next : Value → Values → Values

-- The tuples that `_sensitivity_item` returns, by their tags. A number stands for its text: in one
-- comparison the text of a Decimal by "f" and the Decimal determine each other.
mutual
  pub data Item : Type 0 where
    null_item : Item
    date_item : String → Item
    boolean_item : Bool → Item
    number_item : Bool → ℕ → Exponent → Item
    nan_item : Item
    infinity_item : Bool → Item
    string_item : String → Item
    mapping_item : ItemPairs → Item
    sequence_item : Items → Item
    python_item : String → String → Item

  pub data ItemPairs : Type 0 where
    no_pairs : ItemPairs
    pair_item : Item → Item → ItemPairs → ItemPairs

  pub data Items : Type 0 where
    no_items : Items
    next_item : Item → Items → Items

unfoldable pub ten_to : ℕ → ℕ
ten_to zero = 1
ten_to (suc n) = 10 * ten_to n

-- `Decimal(str(value))`
abbrev pub as_decimal : Bool → ℕ → Decimal
as_decimal negative n = record { negative = negative; coefficient = n; exponent = up 0 }

-- A coefficient over a power of ten, rounded to the nearest, a half away from zero.
unfoldable pub half_up : ℕ → ℕ → ℕ
half_up n unit = (2 * n + unit) / (2 * unit)

-- `quantize` with ROUND_HALF_UP, where no precision limits it: the coefficient at the exponent
-- `- places`.
unfoldable pub quantized : Decimal → ℕ → ℕ
unfolding ten_to half_up
quantized d places = elim d.exponent [
  | up n ↦ d.coefficient * ten_to (n + places)
  | down n ↦
      if leb (suc n) places
      then d.coefficient * ten_to (places - suc n)
      else half_up d.coefficient (ten_to (suc n - places))
]

-- `len(decimal_value.as_tuple().digits)`, on as much fuel as the coefficient
unfoldable pub digits_from : ℕ → ℕ → ℕ → ℕ
unfolding ten_to
digits_from zero k n = k
digits_from (suc fuel) k n =
    let more = digits_from fuel (suc k) n in if ltb n (ten_to k) then k else more

abbrev pub digit_count : ℕ → ℕ
unfolding digits_from
digit_count n = digits_from n 1 n

-- `max(decimal_value.adjusted() + 1, 1)`
abbrev pub integer_digits : Decimal → ℕ
integer_digits d = elim d.exponent [
  | up n ↦ max (digit_count d.coefficient + n) 1
  | down n ↦ max (digit_count d.coefficient - suc n) 1
]

unfoldable pub required_precision : Decimal → ℕ → ℕ
required_precision d places = max (digit_count d.coefficient) (integer_digits d + places)

-- `quantize` in a context, which raises InvalidOperation for a coefficient of too many digits.
unfoldable pub quantize_within : ℕ → Decimal → ℕ → Option ℕ
unfolding quantized
quantize_within precision d places =
    let coefficient = quantized d places in
    if ltb coefficient (ten_to precision) then some coefficient else none

-- The end of `_quantize_number`, from a context with a precision.
unfoldable pub quantize_with : ℕ → Decimal → ℕ → Option ℕ
unfolding quantize_within required_precision
quantize_with precision d places =
    quantize_within (max precision (required_precision d places)) d places

-- `- places` as an exponent.
abbrev pub minus : ℕ → Exponent
minus zero = up 0
minus (suc n) = down n

unfoldable pub quantize_item : Decimal → ℕ → Item
unfolding quantized
quantize_item d places = number_item d.negative (quantized d places) (minus places)

-- `format(_quantize_number(value, decimal_places), "f")`
unfoldable pub quantize_number : Number → ℕ → Option Item
unfolding quantize_item
quantize_number (whole negative n) places = some (quantize_item (as_decimal negative n) places)
quantize_number (decimal d) places = some (quantize_item d places)
quantize_number (float d) places = some (quantize_item d places)
quantize_number nan places = some nan_item
quantize_number (infinity negative) places = none
