-- ===== src/Scoring/Sensitivity/Multisets.antt =====
-- What the unordered comparison of rows decides.
use mathlib.Core.Path.{subst}
use omni_benchmark.Prelude.{
  ℕ, ◌≡◌, ◌↔◌, ◌⊎◌, refl, sym, ap, ◌∙◌, String, Bool, true, false, Option, some, List, [], ◌∷◌,
  ◌++◌, ◌==◌, ==_iff, all, arith, Bool-cases, inl, inr, all-append,
}
use omni_benchmark.Scoring.Values.{Item}
use omni_benchmark.Scoring.Sensitivity.{
  Conditions, policy, sensitivity_policy, row_discrete, decides, same_row, count, same_counter,
  Verdict, compared, Rows, normalize_rows, compare_rows, sensitivity_equal,
}

decides-true : {A : Type 0} (d : Dec A) → decides d ≡ true → A
unfolding decides
decides-true (yes a) e = a
decides-true (no f) e = ground (arith, e)

same_row-true : (r s : List Item) → same_row r s ≡ true → r ≡ s
unfolding same_row
same_row-true r s e = decides-true (row_discrete r s) e

found :
    (row : List Item) (p : List Item → Bool) (rows : List (List Item))
    → all p rows ≡ true
    → (count row rows ≡ 0) ⊎ (p row ≡ true)
found row p [] h = inl refl
found row p (r ∷ rows) h = elim (Bool-cases (same_row row r)) [
  | inl e ↦ inr (subst (λ x. p x ≡ true) (sym (same_row-true row r e)) (ground (arith, h)))
  | inr e ↦ elim (found row p rows (ground (arith, h))) [
    | inl absent ↦ inl (rw e (omega (arith, absent)))
    | inr holds ↦ inr holds
  ]
]

agree-all :
    (xs ys rows : List (List Item))
    → ((r : List Item) → count r xs ≡ count r ys)
    → all (λ r. count r xs == count r ys) rows ≡ true
agree-all xs ys [] h = refl
agree-all xs ys (r ∷ rows) h =
    rw ((==_iff (count r xs) (count r ys)).1 (h r)) (agree-all xs ys rows h)

agrees :
    (xs ys : List (List Item)) (row : List Item)
    → same_counter xs ys ≡ true
    → count row xs ≡ count row ys
agrees xs ys row h =
    let p : List Item → Bool = λ r. count r xs == count r ys in
    let both = all-append p xs ys in
    let holds = λ (e : p row ≡ true). (==_iff (count row xs) (count row ys)).0 e in
    elim (found row p xs (ground (arith, h, both))) [
      | inr e ↦ holds e
      | inl absent ↦ elim (found row p ys (ground (arith, h, both))) [
        | inr e ↦ holds e
        | inl missing ↦ absent ∙ sym missing
      ]
    ]

abbrev verdict : Verdict → Bool
verdict (compared b) = b
verdict _ = false

compared-injective : (a b : Bool) → compared a ≡ compared b → a ≡ b
compared-injective a b e = ap verdict e

-- If the conditions ask for no order, and both results can be normalized, the comparison says that they
-- are equal exactly if each normalized row occurs equally often in both.
pub sensitivity_equal_iff :
    (stable_key : Item → String) (predicted gold : Rows) (conditions : Option Conditions)
    (places : Option ℕ) (xs ys : List (List Item))
    → sensitivity_policy conditions ≡ policy places false
    → normalize_rows stable_key places predicted ≡ some xs
    → normalize_rows stable_key places gold ≡ some ys
    → (sensitivity_equal stable_key predicted gold conditions ≡ compared true)
      ↔ ((r : List Item) → count r xs ≡ count r ys)
unfolding sensitivity_equal compare_rows
sensitivity_equal_iff stable_key predicted gold conditions places xs ys e f g =
    let same : sensitivity_equal stable_key predicted gold conditions
        ≡ compared (same_counter xs ys) =
      rw (e, f, g, sensitivity_equal, compare_rows) refl in
    (
      λ h r. agrees xs ys r (compared-injective (same_counter xs ys) true (sym same ∙ h)),
      λ h. same ∙ ap compared (agree-all xs ys (xs ++ ys) h),
    )
