-- ===== src/Prelude/Text.antt =====
-- Python's `str` tests that the program relies on: `not s.strip()` and `s.startswith(p)`.
use Prim.Native.Nat.{◌+◌, ◌≤◌, ℕ, Ordering}
use Prim.Native.String.{◌∷◌, String, compare}
use Prim.Native.Char.{code}
use text.Mathlib.Text.{◌==◌ as str_eq}
use text.Mathlib.TextEquality.{eq_iff}
use text.Mathlib.TextPositions.{eq_refl}
use mathlib.Core.Path.{◌≡◌, refl, sym, ◌∙◌, subst}
use mathlib.Core.Logic.{inl, inr}
use mathlib.Core.Bool.{false≢true, Bool, true, false, ◌&&◌, ◌||◌}
use mathlib.Core.List.{List, [], ◌∷◌}
use native.Mathlib.Omega.{arith}
use omni_benchmark.Prelude.Tests.{Bool-cases, leb, ◌==◌, if◌then◌else◌}
use omni_benchmark.Prelude.Lists.{any}
use omni_benchmark.Prelude.Totals.{total}

-- The code points that `str.isspace` accepts.
abbrev pub is_space : ℕ → Bool
is_space c =
    (leb 9 c && leb c 13)
    || (leb 28 c && leb c 32)
    || c == 0x85
    || c == 0xa0
    || c == 0x1680
    || (leb 0x2000 c && leb c 0x200a)
    || c == 0x2028
    || c == 0x2029
    || c == 0x202f
    || c == 0x205f
    || c == 0x3000

-- `not s.strip()`
unfoldable pub is_blank : String → Bool
is_blank String.[] = true
is_blank (String.◌∷◌ c s) = is_space (code c) && is_blank s

-- Python's `s <= t` and `s < t`, by code points.
abbrev pub text_le : String → String → Bool
text_le s t = elim (compare s t) [ Ordering.gt ↦ false | _ ↦ true ]

abbrev pub text_lt : String → String → Bool
text_lt s t = elim (compare s t) [ Ordering.lt ↦ true | _ ↦ false ]

-- `s in texts`
abbrev pub member : String → List String → Bool
member s texts = any (str_eq s) texts

abbrev pub hits : String → String → ℕ
hits s t = if str_eq s t then 1 else 0

-- How often a text occurs.
abbrev pub occurrences : String → List String → ℕ
occurrences s texts = total (hits s) texts

pub hits_self : (s : String) → hits s s ≡ 1
hits_self s = rw (eq_refl s) refl

pub str_eq-sym : (s t : String) → str_eq s t ≡ str_eq t s
str_eq-sym s t = elim (Bool-cases (str_eq s t)) [
  | inl e ↦ e ∙ sym (subst (λ u. str_eq t u ≡ true) (sym ((eq_iff s t).0 e)) (eq_refl t))
  | inr e ↦ elim (Bool-cases (str_eq t s)) [
    | inl h ↦
        absurd (false≢true (sym e ∙ subst (λ u. str_eq u t ≡ true) ((eq_iff t s).0 h) (eq_refl t)))
    | inr h ↦ e ∙ sym h
  ]
]

pub not_member :
    (d : String) (texts : List String) → member d texts ≡ false → occurrences d texts ≡ 0
not_member d [] h = refl
not_member d (t ∷ texts) h = ground (arith, h, not_member d texts)

pub at_most_once :
    (d s : String) (texts : List String)
    → member s texts ≡ false
    → occurrences d texts ≤ 1
    → hits d s + occurrences d texts ≤ 1
at_most_once d s texts h k = elim (Bool-cases (str_eq d s)) [
  | inl e ↦ rw e (omega (arith, not_member d texts (rw (← (eq_iff d s).0 e) at h)))
  | inr e ↦ rw e (omega (arith, k))
]

abbrev decided : (s t : String) (b : Bool) → str_eq s t ≡ b → Dec (s ≡ t)
decided s t true e = yes ((eq_iff s t).0 e)
decided s t false e = no (λ p. false≢true (sym e ∙ subst (λ u. str_eq s u ≡ true) p (eq_refl s)))

unfoldable pub text_discrete : Discrete String
text_discrete s t = decided s t (str_eq s t) refl
