-- ===== src/Split/Select/Ids.antt =====
-- split.py: sets of identifiers, by how often each text is in the list.
use text.Mathlib.Text.{◌==◌ as str_eq}
use text.Mathlib.TextEquality.{eq_iff}
use omni_benchmark.Prelude.{
  suc, ◌+◌, ◌≤◌, ◌<◌, ◌≡◌, refl, ap, String, Bool, true, false, List, [], ◌∷◌, ◌++◌, keep, length,
  arith, Bool-cases, inl, inr, if◌then◌else◌,
}
use omni_benchmark.Prelude.Text.{hits, hits_self, member, occurrences}
use omni_benchmark.Split.Select.{add_id, add_ids}

pub absent : (s : String) (ids : List String) → occurrences s ids ≡ 0 → member s ids ≡ false
absent s [] h = refl
absent s (t ∷ ids) h = elim (Bool-cases (str_eq s t)) [
  | inl e ↦ absurd (ground (arith, h, e))
  | inr e ↦ rw e (absent s ids (ground (arith, h, e)))
]

pub present : (s : String) (ids : List String) → 0 < occurrences s ids → member s ids ≡ true
present s [] h = absurd (omega (arith, h))
present s (t ∷ ids) h = elim (Bool-cases (str_eq s t)) [
  | inl e ↦ rw e refl
  | inr e ↦ rw e (present s ids (ground (arith, h, e)))
]

-- No text is in both lists, nor twice in one of them.
abbrev pub IsFresh : List String → List String → Type 0
IsFresh xs ids = (s : String) → occurrences s xs + occurrences s ids ≤ 1

add_id-new : (s : String) (xs ids : List String) → IsFresh (s ∷ xs) ids → add_id s ids ≡ s ∷ ids
unfolding add_id
add_id-new s xs ids h = rw (absent s ids (omega (arith, h s, hits_self s))) refl

next-IsFresh : (s : String) (xs ids : List String) → IsFresh (s ∷ xs) ids → IsFresh xs (s ∷ ids)
next-IsFresh s xs ids h t = omega (arith, h t)

-- Adding identifiers that are new adds each of them.
pub add_ids-occurrences :
    (xs ids : List String)
    → IsFresh xs ids
    → (s : String) → occurrences s (add_ids xs ids) ≡ occurrences s xs + occurrences s ids
unfolding add_ids
add_ids-occurrences [] ids h s = omega arith
add_ids-occurrences (x ∷ xs) ids h s =
    rw (add_id-new x xs ids h)
      (omega (arith, add_ids-occurrences xs (x ∷ ids) (next-IsFresh x xs ids h) s))

pub add_ids-length :
    (xs ids : List String) → IsFresh xs ids → length (add_ids xs ids) ≡ length xs + length ids
unfolding add_ids
add_ids-length [] ids h = omega arith
add_ids-length (x ∷ xs) ids h =
    rw (add_id-new x xs ids h)
      (omega (arith, add_ids-length xs (x ∷ ids) (next-IsFresh x xs ids h)))

pub add_ids-append :
    (xs ys ids : List String) → add_ids (xs ++ ys) ids ≡ add_ids ys (add_ids xs ids)
unfolding add_ids
add_ids-append [] ys ids = refl
add_ids-append (x ∷ xs) ys ids = add_ids-append xs ys (add_id x ids)

erase : String → List String → List String
erase s [] = []
erase s (t ∷ ids) = let later = erase s ids in if str_eq s t then ids else t ∷ later

erase-occurrences :
    (s : String) (ids : List String) (t : String)
    → 0 < occurrences s ids
    → occurrences t (erase s ids) + hits t s ≡ occurrences t ids
unfolding erase
erase-occurrences s [] t h = absurd (omega (arith, h))
erase-occurrences s (x ∷ ids) t h = elim (Bool-cases (str_eq s x)) [
  | inl e ↦ rw (e, (eq_iff s x).0 e) (omega arith)
  | inr e ↦ rw e (omega (arith, erase-occurrences s ids t (ground (arith, h, e))))
]

erase-length :
    (s : String) (ids : List String)
    → 0 < occurrences s ids
    → suc (length (erase s ids)) ≡ length ids
unfolding erase
erase-length s [] h = absurd (omega (arith, h))
erase-length s (x ∷ ids) h = elim (Bool-cases (str_eq s x)) [
  | inl e ↦ rw e refl
  | inr e ↦ rw e (omega (arith, erase-length s ids (ground (arith, h, e))))
]

-- Lists with the same texts, each as often, have one length.
pub same_length :
    (xs ys : List String)
    → ((s : String) → occurrences s xs ≡ occurrences s ys)
    → length xs ≡ length ys
same_length [] [] h = refl
same_length [] (y ∷ ys) h = absurd (omega (arith, h y, hits_self y))
same_length (x ∷ xs) ys h =
    let here : 0 < occurrences x ys = omega (arith, h x, hits_self x) in
    omega (
      arith,
      erase-length x ys here,
      same_length xs (erase x ys) (λ s. omega (arith, h s, erase-occurrences x ys s here)),
    )

pub keep-occurrences :
    (s : String) (test : String → Bool) (ids : List String)
    → occurrences s (keep test ids) ≡ (if test s then occurrences s ids else 0)
keep-occurrences s test [] = ground arith
keep-occurrences s test (t ∷ ids) = elim (Bool-cases (str_eq s t)) [
  | inl e ↦ ground (arith, keep-occurrences s test ids, e, ap test ((eq_iff s t).0 e))
  | inr e ↦ ground (arith, keep-occurrences s test ids, e)
]
