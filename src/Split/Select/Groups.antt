-- ===== src/Split/Select/Groups.antt =====
-- split.py: the grouping of the questions by database.
use text.Mathlib.Text.{◌==◌ as str_eq}
use text.Mathlib.TextPositions.{eq_refl}
use omni_benchmark.Prelude.{
  ℕ, ◌+◌, ◌<◌, ◌≡◌, refl, ◌∙◌, String, false, some, List, [], ◌∷◌, map, length, length-append,
  total, total-append, total-map, All, All-zip, arith, Bool-cases, inl, inr,
}
use omni_benchmark.Prelude.Text.{hits, occurrences, str_eq-sym}
use omni_benchmark.Split.{Question}
use omni_benchmark.Split.Apportion.Bumps.{IsDict, IsNew, sharing, hit}
use omni_benchmark.Split.Select.{Groups, file, file_all, ids_of, count_of}

abbrev pub seen : String → Question → ℕ
seen s q = hits s q.instance_id

pub occurrences-ids_of :
    (s : String) (questions : List Question)
    → occurrences s (ids_of questions) ≡ total (seen s) questions
occurrences-ids_of s questions = total-map (hits s) (λ q. q.instance_id) questions

-- The sum over all questions of all groups.
abbrev pub grand_total : (Question → ℕ) → Groups → ℕ
grand_total f groups = total (λ g. total f g.1) groups

file-total :
    (f : Question → ℕ) (q : Question) (groups : Groups)
    → grand_total f (file q groups) ≡ grand_total f groups + f q
unfolding file
file-total f q [] = omega arith
file-total f q ((database, questions) ∷ rest) =
    elim (Bool-cases (str_eq database q.selected_database)) [
      | inl e ↦ rw e (omega (arith, total-append f questions (q ∷ [])))
      | inr e ↦ rw e (omega (arith, file-total f q rest))
    ]

pub file_all-total :
    (f : Question → ℕ) (groups : Groups) (questions : List Question)
    → grand_total f (file_all groups questions) ≡ grand_total f groups + total f questions
unfolding file_all
file_all-total f groups [] = omega arith
file_all-total f groups (q ∷ questions) =
    omega (arith, file-total f q groups, file_all-total f (file q groups) questions)

abbrev pub sizes : Groups → List (String × ℕ)
sizes groups = map (λ g. (g.0, length g.1)) groups

-- The groups of a dict, none of them empty.
abbrev pub IsGrouped : Groups → Type 0
IsGrouped groups = IsDict (λ s. s) (sizes groups) × All (λ g. 0 < length g.1) groups

file-IsNew :
    (x : String × ℕ) (q : Question) (groups : Groups)
    → str_eq x.0 q.selected_database ≡ false
    → IsNew (λ s. s) x (sizes groups)
    → IsNew (λ s. s) x (sizes (file q groups))
unfolding file
file-IsNew x q [] e h = (rw e refl, tt)
file-IsNew x q ((database, questions) ∷ rest) e h =
    elim (Bool-cases (str_eq database q.selected_database)) [
      | inl k ↦ rw k h
      | inr k ↦ rw k (h.0, file-IsNew x q rest e h.1)
    ]

file-IsGrouped : (q : Question) (groups : Groups) → IsGrouped groups → IsGrouped (file q groups)
unfolding file
file-IsGrouped q [] h = ((tt, tt), (omega arith, tt))
file-IsGrouped q ((database, questions) ∷ rest) h =
    elim (Bool-cases (str_eq database q.selected_database)) [
      | inl k ↦ rw k (h.0, (omega (arith, length-append questions (q ∷ [])), h.1.1))
      | inr k ↦
          let later = file-IsGrouped q rest (h.0.1, h.1.1) in
          rw k ((file-IsNew (database, length questions) q rest k h.0.0, later.0), (h.1.0, later.1))
    ]

pub file_all-IsGrouped :
    (groups : Groups) (questions : List Question)
    → IsGrouped groups
    → IsGrouped (file_all groups questions)
unfolding file_all
file_all-IsGrouped groups [] h = h
file_all-IsGrouped groups (q ∷ questions) h =
    file_all-IsGrouped (file q groups) questions (file-IsGrouped q groups h)

no_hit : (x y : String × ℕ) → hit (λ s. s) x y ≡ 0 → str_eq y.0 x.0 ≡ false
no_hit x y h = ground (arith, h, str_eq-sym x.0 y.0)

skipped :
    (x : String × ℕ) (n : ℕ) (y : String × ℕ) (shares : List (String × ℕ))
    → hit (λ s. s) x y ≡ 0
    → count_of y.0 ((x.0, n) ∷ shares) ≡ count_of y.0 shares
unfolding count_of
skipped x n y shares h = rw (no_hit x y h) refl

found : (s : String) (n : ℕ) (shares : List (String × ℕ)) → count_of s ((s, n) ∷ shares) ≡ some n
unfolding count_of
found s n shares = rw (eq_refl s) refl

-- What a dict of shares has under a key.
pub count_of-sharing :
    (n : String × ℕ → ℕ) (entries : List (String × ℕ))
    → IsDict (λ s. s) entries
    → All (λ e. count_of e.0 (sharing (λ s. s) n entries) ≡ some (n e)) entries
count_of-sharing n [] d = tt
count_of-sharing n (x ∷ rest) d = (
  found x.0 (n x) _,
  All-zip rest (λ y h k. skipped x (n x) y _ h ∙ k) d.0 (count_of-sharing n rest d.1),
)
