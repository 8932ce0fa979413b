-- ===== src/Examples/Questions.antt =====
-- Three hundred and thirty-two questions on two databases, and shares of three databases.
use text.Mathlib.Text.{◌==◌ as str_eq}
use text.Mathlib.TextEquality.{eq_iff}
use omni_benchmark.Prelude.{
  ℕ, zero, suc, ◌≤◌, ◌<◌, ◌≡◌, refl, sym, ◌∙◌, ap, String, Bool, true, false, List, [], ◌∷◌, length,
  All, some, arith, Bool-cases, inl, inr, if◌then◌else◌, total,
}
use omni_benchmark.Prelude.Text.{occurrences}
use omni_benchmark.Split.{Question}
use omni_benchmark.Split.Apportion.{allocate_proportionally}
use omni_benchmark.Split.Apportion.Bumps.{sharing}
use omni_benchmark.Split.Apportion.Quotas.{IsRounded, allocate_proportionally-IsRounded}
use omni_benchmark.Split.Select.{create_split, ids_of}
use omni_benchmark.Split.Select.Create.{Parts, create_split-Parts}

unfoldable tally : ℕ → String
tally zero = ""
tally (suc n) = String.◌∷◌ "q" (tally n)

unfoldable size : String → ℕ
size String.[] = 0
size (String.◌∷◌ c s) = suc (size s)

size-tally : (n : ℕ) → size (tally n) ≡ n
unfolding size tally
size-tally zero = refl
size-tally (suc n) = ap suc (size-tally n)

longer : (s : String) (m n : ℕ) → m < n → str_eq s (tally n) ≡ true → str_eq s (tally m) ≡ false
longer s m n h e = elim (Bool-cases (str_eq s (tally m))) [
  | inl same ↦
      let one =
        sym (size-tally n)
        ∙ ap size (sym ((eq_iff s (tally n)).0 e) ∙ (eq_iff s (tally m)).0 same)
        ∙ size-tally m in
      absurd (omega (arith, h, one))
  | inr other ↦ other
]

abbrev asked_of : ℕ → Bool → Question
asked_of n level = record {
  instance_id = tally n;
  selected_database = if level then "museum" else "library";
  high_level = level;
}

unfoldable questions : ℕ → Bool → List Question
questions zero level = []
questions (suc n) level = asked_of n level ∷ questions n (if level then false else true)

questions-length : (n : ℕ) (level : Bool) → length (questions n level) ≡ n
unfolding questions
questions-length zero level = refl
questions-length (suc n) level = ap suc (questions-length n (if level then false else true))

absent :
    (s : String) (n m : ℕ) (level : Bool)
    → n ≤ m
    → str_eq s (tally m) ≡ true
    → occurrences s (ids_of (questions n level)) ≡ 0
unfolding questions
absent s zero m level h e = refl
absent s (suc n) m level h e =
    rw (longer s n m h e, absent s n m (if level then false else true) (omega (arith, h)) e) refl

once : (n : ℕ) (level : Bool) (s : String) → occurrences s (ids_of (questions n level)) ≤ 1
unfolding questions
once zero level s = omega arith
once (suc n) level s = elim (Bool-cases (str_eq s (tally n))) [
  | inl e ↦ rw (e, absent s n n (if level then false else true) (omega arith) e) (omega arith)
  | inr e ↦ rw e (omega (arith, once n (if level then false else true) s))
]

create_split-Parts_example :
    Parts
      (ids_of (questions 332 true))
      231
      101
      (create_split (λ s. s) "2026" (questions 332 true) 231 101)
create_split-Parts_example =
    create_split-Parts (λ s. s) "2026" (questions 332 true) refl (questions-length 332 true)
      (once 332 true)

abbrev databases : List (String × ℕ)
databases = ("museum", 7) ∷ ("library", 4) ∷ ("archive", 1) ∷ []

allocate_proportionally-IsRounded_example :
    (shares : String × ℕ → ℕ) × (allocate_proportionally (λ s. s) databases 5
      ≡ some (sharing (λ s. s) shares databases))
    × (total shares databases ≡ 5)
    × All (λ e. IsRounded (λ s. s) 5 12 e (shares e)) databases
allocate_proportionally-IsRounded_example =
    allocate_proportionally-IsRounded (λ s. s) databases 5
      ((refl, (refl, tt)), ((refl, tt), (tt, tt))) (omega arith) (omega arith)
