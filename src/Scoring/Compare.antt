-- ===== src/Scoring/Compare.antt =====
-- src/omni_benchmark/scoring.py: `sensitivity_equal`. `stable_key` is the JSON text of a normalized key.
use omni_benchmark.Prelude.{
  ℕ, zero, suc, ◌+◌, ◌-◌, ◌*◌, ◌/◌, ◌%◌, String, Bool, false, ◌&&◌, ◌||◌, Option, none, some, leb,
  ltb, ◌==◌, if◌then◌else◌,
}
use omni_benchmark.Prelude.Text.{text_le}
use omni_benchmark.Scoring.Values.{
  Exponent, up, down, Decimal, Number, whole, decimal, float, nan, infinity, Value, null, date,
  boolean, number, string, mapping, sequence, tuple, python, Pairs, no_more, pair, Values, ended,
  next, Item, null_item, date_item, boolean_item, number_item, nan_item, infinity_item, string_item,
  mapping_item, sequence_item, python_item, ItemPairs, no_pairs, pair_item, Items, no_items,
  next_item, ten_to, as_decimal, quantize_number,
}

-- An exponent and a number of places more.
abbrev raised : Exponent → ℕ → Exponent
raised (up n) m = up (n + m)
raised (down n) m = if leb m n then down (n - m) else up (m - suc n)

-- The number of decimal digits, on fuel that is at least the number.
unfoldable digits : ℕ → ℕ → ℕ
digits zero n = 0
digits (suc fuel) n = elim n [ zero ↦ 0 | suc m ↦ suc (digits fuel (suc m / 10)) ]

-- The rounding of a context to 28 digits, a half to the even one: the coefficient over `unit`.
unfoldable half_even : ℕ → ℕ → ℕ
half_even n unit =
    let quotient = n / unit in
    let twice = 2 * (n % unit) in
    if ltb unit twice || (twice == unit && quotient % 2 == 1) then suc quotient else quotient

-- A Decimal without trailing zeros, on fuel that is at least the coefficient.
unfoldable stripped : ℕ → Bool → ℕ → Exponent → Item
stripped zero negative n e = number_item negative n e
stripped (suc fuel) negative n e =
    let shorter = stripped fuel negative (n / 10) (raised e 1) in
    if n % 10 == 0 then shorter else number_item negative n e

-- `normalize`
unfoldable normalized : Decimal → Item
unfolding digits half_even stripped ten_to
normalized d =
    let excess = digits d.coefficient d.coefficient - 28 in
    let rounded = half_even d.coefficient (ten_to excess) in
    stripped rounded d.negative rounded (raised d.exponent excess)

unfoldable exact_item : Decimal → Item
unfolding normalized
exact_item d = if d.coefficient == 0 then number_item false 0 (up 0) else normalized d

-- `_canonical_exact_number`
unfoldable pub canonical_exact_number : Number → Item
unfolding exact_item
canonical_exact_number (whole negative n) = exact_item (as_decimal negative n)
canonical_exact_number (decimal d) = exact_item d
canonical_exact_number (float d) = exact_item d
canonical_exact_number nan = nan_item
canonical_exact_number (infinity negative) = infinity_item negative

unfoldable pub number_of : Option ℕ → Number → Option Item
unfolding canonical_exact_number quantize_number
number_of none n = some (canonical_exact_number n)
number_of (some places) n = quantize_number n places

abbrev chain_item {ℓ κ} : {A : Type ℓ} {B : Type κ} → Option A → (A → Option B) → Option B
chain_item none f = none
chain_item (some a) f = f a

module _ (stable_key : Item → String) where
  -- `sorted(pairs, key=lambda pair: _stable_key(pair[0]))`, by insertion.
  unfoldable pub insert_pair : Item → Item → ItemPairs → ItemPairs
  insert_pair key item no_pairs = pair_item key item no_pairs
  insert_pair key item (pair_item k i rest) =
      let later = insert_pair key item rest in
      if text_le (stable_key key) (stable_key k)
      then pair_item key item (pair_item k i rest)
      else pair_item k i later

  -- `_sensitivity_item`
  unfoldable mutual
    unfolding number_of insert_pair

    pub sensitivity_item : Option ℕ → Value → Option Item
    sensitivity_item places null = some null_item
    sensitivity_item places (date s) = some (date_item s)
    sensitivity_item places (boolean b) = some (boolean_item b)
    sensitivity_item places (number n) = number_of places n
    sensitivity_item places (string s) = some (string_item s)
    sensitivity_item places (mapping ps) =
        chain_item (sensitivity_pairs places ps) (λ sorted. some (mapping_item sorted))
    sensitivity_item places (sequence vs) =
        chain_item (sensitivity_items places vs) (λ items. some (sequence_item items))
    sensitivity_item places (tuple vs) =
        chain_item (sensitivity_items places vs) (λ items. some (sequence_item items))
    sensitivity_item places (python type repr) = some (python_item type repr)

    pub sensitivity_pairs : Option ℕ → Pairs → Option ItemPairs
    sensitivity_pairs places no_more = some no_pairs
    sensitivity_pairs places (pair key item rest) = chain_item (sensitivity_item places key) (λ k.
        chain_item (sensitivity_item places item) (λ i.
          chain_item (sensitivity_pairs places rest) (λ sorted. some (insert_pair k i sorted))))

    pub sensitivity_items : Option ℕ → Values → Option Items
    sensitivity_items places ended = some no_items
    sensitivity_items places (next v vs) =
        chain_item (sensitivity_item places v)
          (λ item. chain_item (sensitivity_items places vs) (λ items. some (next_item item items)))
