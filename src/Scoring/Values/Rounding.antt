-- ===== src/Scoring/Values/Rounding.antt =====
-- The precision that `_quantize_number` asks for is enough.
use native.Mathlib.Nat.{mod-lt, div-add-mod, mul-le-mul_right, le-max_left, le-max_right}
use Prim.Native.Nat.{max}
use omni_benchmark.Prelude.{
  leb→le, Bool, ℕ, zero, suc, ◌+◌, ◌-◌, ◌*◌, ◌/◌, ◌≤◌, ◌<◌, ◌≡◌, refl, ap, true, some, arith, leb,
  ltb, ltb→ge, Bool-cases, inl, inr,
}
use omni_benchmark.Scoring.Values.{
  Decimal, Exponent, up, down, ten_to, half_up, quantized, digits_from, digit_count,
  required_precision, quantize_within, quantize_with,
}

ten_to-positive : (n : ℕ) → 0 < ten_to n
unfolding ten_to
ten_to-positive zero = omega arith
ten_to-positive (suc n) = omega (arith, ten_to-positive n)

-- A rounded coefficient, in units of the last place kept, is nearest, and above where two are.
pub record IsNear (n unit rounded : ℕ) : Type 0 where
  pub above : 2 * (rounded * unit) ≤ 2 * n + unit
  pub below : 2 * n + unit < 2 * (rounded * unit) + 2 * unit

half_up-IsNear : (n unit : ℕ) → 0 < unit → IsNear n unit (half_up n unit)
unfolding half_up
half_up-IsNear n unit h =
    let whole = div-add-mod (2 * n + unit) (2 * unit) in
    let rest = mod-lt (2 * n + unit) {m = 2 * unit} (omega (arith, h)) in
    let q = (2 * n + unit) / (2 * unit) in
    let shape : 2 * unit * q ≡ 2 * (q * unit) = grind arith in
    record { above = omega (arith, whole, shape); below = omega (arith, whole, shape, rest) }

ten_to-add : (m n : ℕ) → ten_to (m + n) ≡ ten_to m * ten_to n
unfolding ten_to
ten_to-add zero n =
    let step : 0 + n ≡ n = omega arith in
    let e : ten_to (0 + n) ≡ ten_to n = ap ten_to step in omega (arith, e)
ten_to-add (suc m) n =
    let step : suc m + n ≡ suc (m + n) = omega arith in
    let e : ten_to (suc m + n) ≡ ten_to (suc (m + n)) = ap ten_to step in
    let product : ten_to (suc m) * ten_to n ≡ 10 * (ten_to m * ten_to n) = grind arith in
    omega (arith, e, ten_to-add m n, product)

ten_to_mono : (m n : ℕ) → m ≤ n → ten_to m ≤ ten_to n
unfolding ten_to
ten_to_mono zero n h = omega (arith, ten_to-positive n)
ten_to_mono (suc m) zero h = absurd (omega (arith, h))
ten_to_mono (suc m) (suc n) h = omega (arith, ten_to_mono m n (omega (arith, h)))

below_ten_to : (n : ℕ) → n < ten_to n
unfolding ten_to
below_ten_to zero = omega arith
below_ten_to (suc n) = omega (arith, below_ten_to n)

digits_from-bound : (fuel k n : ℕ) → n ≤ fuel + k → n < ten_to (digits_from fuel k n)
unfolding digits_from
digits_from-bound zero k n h = omega (arith, h, below_ten_to k)
digits_from-bound (suc fuel) k n h = elim (Bool-cases (ltb n (ten_to k))) [
  | inl e ↦ rw e (ground (arith, e))
  | inr e ↦ rw e (digits_from-bound fuel (suc k) n (omega (arith, h)))
]

digit_count-bound : (n : ℕ) → n < ten_to (digit_count n)
unfolding digits_from digit_count
digit_count-bound n = digits_from-bound n 1 n (omega arith)

-- A coefficient with zeros behind it.
shifted : (c l k m : ℕ) → c < ten_to l → l + k ≤ m → c * ten_to k < ten_to m
shifted c l k m h le =
    let wide : suc c * ten_to k ≤ ten_to l * ten_to k = mul-le-mul_right (ten_to k) h in
    let one : suc c * ten_to k ≡ ten_to k + c * ten_to k = grind arith in
    omega (arith, wide, one, ten_to-positive k, ten_to-add l k, ten_to_mono (l + k) m le)

-- A coefficient of which digits are dropped.
dropped : (c l k : ℕ) → 0 < k → c < ten_to l → half_up c (ten_to k) < ten_to l
unfolding ten_to
dropped c l zero p h = absurd (omega (arith, p))
dropped c l (suc k) p h = elim (Bool-cases (ltb (half_up c (ten_to (suc k))) (ten_to l))) [
  | inl e ↦ ground (arith, e)
  | inr e ↦
      let u = ten_to (suc k) in
      let near = half_up-IsNear c u (ten_to-positive (suc k)) in
      let large : ten_to l ≤ half_up c u = ltb→ge (half_up c u) (ten_to l) e in
      let more : ten_to l * u ≤ half_up c u * u = mul-le-mul_right u large in
      let least : 1 * (u - 2) ≤ ten_to l * (u - 2) =
        mul-le-mul_right (u - 2) (omega (arith, ten_to-positive l)) in
      let two : (u - 2) + 2 ≡ u = omega (arith, ten_to-positive k) in
      let parts : ten_to l * ((u - 2) + 2) ≡ ten_to l * (u - 2) + 2 * ten_to l = grind arith in
      let same : ten_to l * ((u - 2) + 2) ≡ ten_to l * u = ap (λ n. ten_to l * n) two in
      absurd (omega (arith, near.above, more, least, parts, same, two, h))
]

quantized-bound :
    (negative : Bool) (c places : ℕ) (e : Exponent)
    → quantized (record { negative = negative; coefficient = c; exponent = e }) places
      < ten_to (
          required_precision (record { negative = negative; coefficient = c; exponent = e }) places)
unfolding quantized required_precision
quantized-bound negative c places (up n) =
    let l = digit_count c in
    let whole = le-max_left (l + n) 1 in
    let all = le-max_right l (max (l + n) 1 + places) in
    shifted c l (n + places) _ (digit_count-bound c) (omega (arith, whole, all))
quantized-bound negative c places (down n) = elim (Bool-cases (leb (suc n) places)) [
  | inl e ↦
      let l = digit_count c in
      let whole = le-max_left (l - suc n) 1 in
      let all = le-max_right l (max (l - suc n) 1 + places) in
      rw e (
        shifted c l (places - suc n) _ (digit_count-bound c)
          (omega (arith, whole, all, leb→le (suc n) places e)))
  | inr e ↦
      let l = digit_count c in
      let all = le-max_left l (max (l - suc n) 1 + places) in
      let kept = dropped c l (suc n - places) (ground (arith, e)) (digit_count-bound c) in
      rw e (omega (arith, kept, ten_to_mono l _ all))
]

-- Whatever the precision of the context, the one that `_quantize_number` sets in it is enough for a finite
-- Decimal: no InvalidOperation is raised for its digits, and the result is the rounded coefficient.
pub quantize_with-quantized :
    (precision : ℕ) (d : Decimal) (places : ℕ)
    → quantize_with precision d places ≡ some (quantized d places)
unfolding quantize_with quantize_within
quantize_with-quantized precision d places =
    let required = required_precision d places in
    let fits = quantized-bound d.negative d.coefficient places d.exponent in
    let more = ten_to_mono required (max precision required) (le-max_right precision required) in
    let below : ltb (quantized d places) (ten_to (max precision required)) ≡ true =
      ground (arith, fits, more) in
    rw below refl
