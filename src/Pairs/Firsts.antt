-- ===== src/Pairs/Firsts.antt =====
-- r2_paired_schedule.py: looking up the first arm of a question in an assignment.
use omni_benchmark.Prelude.{
  ℕ, ◌≤◌, ◌<◌, ◌≡◌, refl, ap, sym, ◌∙◌, String, Option, none, some, List, [], ◌∷◌, total, All,
  All-map, All-zip, arith, Bool-cases, inl, inr,
}
use text.Mathlib.Text.{◌==◌ as str_eq}
use text.Mathlib.TextPositions.{eq_refl}
use omni_benchmark.Prelude.Text.{hits, hits_self}
use omni_benchmark.Pairs.{Arm, control, value_of}

abbrev pub Firsts : Type 0
Firsts = List (String × Arm)

-- How often a question stands in an assignment.
abbrev pub keyed : String → Firsts → ℕ
keyed s firsts = total (λ e. hits s e.0) firsts

value_of-skips :
    (s : String) (x : String × Arm) (firsts : Firsts)
    → hits s x.0 ≡ 0
    → value_of s (x ∷ firsts) ≡ value_of s firsts
value_of-skips s x firsts h = elim (Bool-cases (str_eq s x.0)) [
  | inl e ↦ absurd (ground (arith, h, e))
  | inr e ↦ rw e refl
]

each_keyed : (firsts : Firsts) → All (λ e. 0 < keyed e.0 firsts) firsts
each_keyed [] = tt
each_keyed (x ∷ firsts) =
    (omega (arith, hits_self x.0), All-map firsts (λ e h. omega (arith, h)) (each_keyed firsts))

own_value : (x : String × Arm) (firsts : Firsts) → value_of x.0 (x ∷ firsts) ≡ some x.1
own_value x firsts = rw (eq_refl x.0) refl

value_of-own :
    (firsts : Firsts)
    → ((s : String) → keyed s firsts ≤ 1)
    → All (λ e. value_of e.0 firsts ≡ some e.1) firsts
value_of-own [] once = tt
value_of-own (x ∷ firsts) once = (
  own_value x firsts,
  All-zip firsts (λ e v h. value_of-skips e.0 x firsts (omega (arith, once e.0, h)) ∙ v)
      (value_of-own firsts (λ s. omega (arith, once s))) (each_keyed firsts),
)

abbrev or_control : Option Arm → Arm
or_control none = control
or_control (some a) = a

-- The arm that a question has, where it has one.
abbrev pub arm_of : Firsts → String → Arm
arm_of firsts s = or_control (value_of s firsts)

value_of-found :
    (s : String) (firsts : Firsts) → 0 < keyed s firsts → (a : Arm) × (value_of s firsts ≡ some a)
value_of-found s [] h = absurd (omega (arith, h))
value_of-found s (x ∷ firsts) h = elim (Bool-cases (str_eq s x.0)) [
  | inl e ↦ (x.1, rw e refl)
  | inr e ↦ let found = value_of-found s firsts (ground (arith, h, e)) in (found.0, rw e found.1)
]

pub value_of-arm_of :
    (s : String) (firsts : Firsts) → 0 < keyed s firsts → value_of s firsts ≡ some (arm_of firsts s)
value_of-arm_of s firsts h =
    let (a, e) = value_of-found s firsts h in e ∙ sym (ap (λ o. some (or_control o)) e)

pub arm_of-own :
    (firsts : Firsts)
    → ((s : String) → keyed s firsts ≤ 1)
    → All (λ e. arm_of firsts e.0 ≡ e.1) firsts
arm_of-own firsts once = All-map firsts (λ e v. ap or_control v) (value_of-own firsts once)
