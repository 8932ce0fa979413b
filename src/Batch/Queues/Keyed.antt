-- ===== src/Batch/Queues/Keyed.antt =====
-- baseline_batch.py: the queues hold each attempt under the name of its database, once.
use text.Mathlib.Text.{◌==◌ as str_eq}
use text.Mathlib.TextEquality.{eq_iff}
use text.Mathlib.TextPositions.{eq_refl}
use omni_benchmark.Prelude.Text.{member}
use omni_benchmark.Prelude.{
  ℕ, ◌+◌, total, total-length, suc, String, ◌≡◌, refl, Bool, true, false, not, ◌&&◌, Option, none,
  some, List, [], ◌∷◌, ◌++◌, All, if◌then◌else◌, arith, sym, Bool-cases, ◌⊎◌, inl, inr,
}
use omni_benchmark.Batch.{BaselineAttempt}
use omni_benchmark.Batch.Queues.{
  Queues, enqueue, enqueue_all, database_queues, remaining, first_head, next_attempt, popleft,
  or_second,
}

abbrev pub IsOther : String → Queues → Type 0
IsOther s queues = All (λ entry. str_eq s entry.0 ≡ false) queues

-- Each key stands once, and names the database of all that is queued under it.
pub IsKeyed : Queues → Type 0
IsKeyed [] = Unit
IsKeyed ((database, queue) ∷ rest) =
    All (λ a. a.database ≡ database) queue × IsOther database rest × IsKeyed rest

if_some :
    {A : Type 0} (t : Bool) (x a : A) (later : Option A)
    → (if t then some x else later) ≡ some a
    → ((t ≡ true) × (x ≡ a)) ⊎ ((t ≡ false) × (later ≡ some a))
if_some true x a later h = inl (refl, cc)
if_some false x a later h = inr (refl, h)

All-append : {A : Type 0} (P : A → Type 0) (xs ys : List A) → All P xs → All P ys → All P (xs ++ ys)
All-append P [] ys h k = k
All-append P (x ∷ xs) ys h k = (h.0, All-append P xs ys h.1 k)

-- The database of an attempt that a loop of `_next_attempt` finds passes the loop's test.
first_head-passes :
    (test : String → Bool) (queues : Queues) (a : BaselineAttempt)
    → IsKeyed queues
    → first_head test queues ≡ some a
    → test a.database ≡ true
unfolding first_head IsKeyed
first_head-passes test [] a k h = cc
first_head-passes test ((database, []) ∷ rest) a k h = first_head-passes test rest a k.2 h
first_head-passes test ((database, x ∷ queue) ∷ rest) a k h =
    elim (if_some (test database) x a (first_head test rest) h) [
      | inl p ↦ rw (← p.1, k.0.0) p.0
      | inr p ↦ first_head-passes test rest a k.2 p.1
    ]

first_head-other :
    (test : String → Bool) (s : String) (queues : Queues) (a : BaselineAttempt)
    → IsKeyed queues
    → IsOther s queues
    → first_head test queues ≡ some a
    → str_eq s a.database ≡ false
unfolding first_head IsKeyed
first_head-other test s [] a k o h = cc
first_head-other test s ((database, []) ∷ rest) a k o h = first_head-other test s rest a k.2 o.1 h
first_head-other test s ((database, x ∷ queue) ∷ rest) a k o h =
    elim (if_some (test database) x a (first_head test rest) h) [
      | inl p ↦ rw (← p.1, k.0.0) o.0
      | inr p ↦ first_head-other test s rest a k.2 o.1 p.1
    ]

-- A weight of what is queued.
abbrev pub queued : (BaselineAttempt → ℕ) → Queues → ℕ
queued f queues = total (λ entry. total f entry.1) queues

pub remaining-queued : (queues : Queues) → queued (λ a. 1) queues ≡ remaining queues
unfolding remaining
remaining-queued [] = refl
remaining-queued ((database, queue) ∷ rest) =
    omega (arith, total-length queue, remaining-queued rest)

pub queued-none :
    (f : BaselineAttempt → ℕ) (queues : Queues) → remaining queues ≡ 0 → queued f queues ≡ 0
unfolding remaining
queued-none f [] h = refl
queued-none f ((database, []) ∷ rest) h = omega (arith, queued-none f rest (omega (arith, h)))
queued-none f ((database, a ∷ queue) ∷ rest) h = absurd (omega (arith, h))

-- What is taken out of the queues is the attempt that was found.
queued-popleft :
    (f : BaselineAttempt → ℕ) (test : String → Bool) (queues : Queues) (a : BaselineAttempt)
    → IsKeyed queues
    → first_head test queues ≡ some a
    → queued f (popleft a.database queues) + f a ≡ queued f queues
unfolding first_head popleft IsKeyed
queued-popleft f test [] a k h = cc
queued-popleft f test ((database, []) ∷ rest) a k h =
    rw (first_head-other test database rest a k.2 k.1 h)
      (omega (arith, queued-popleft f test rest a k.2 h))
queued-popleft f test ((database, x ∷ queue) ∷ rest) a k h =
    elim (if_some (test database) x a (first_head test rest) h) [
      | inl p ↦ rw (← p.1, k.0.0, eq_refl database) (omega arith)
      | inr p ↦
          rw (first_head-other test database rest a k.2 k.1 p.1)
            (omega (arith, queued-popleft f test rest a k.2 p.1))
    ]

IsOther-if :
    (s : String) (t : Bool) (xs ys : Queues)
    → IsOther s xs
    → IsOther s ys
    → IsOther s (if t then xs else ys)
IsOther-if s true xs ys h k = h
IsOther-if s false xs ys h k = k

IsKeyed-if : (t : Bool) (xs ys : Queues) → IsKeyed xs → IsKeyed ys → IsKeyed (if t then xs else ys)
IsKeyed-if true xs ys h k = h
IsKeyed-if false xs ys h k = k

popleft-IsOther : (s t : String) (queues : Queues) → IsOther s queues → IsOther s (popleft t queues)
unfolding popleft
popleft-IsOther s t [] o = tt
popleft-IsOther s t ((database, []) ∷ rest) o =
    IsOther-if s (str_eq database t) _ _ o (o.0, popleft-IsOther s t rest o.1)
popleft-IsOther s t ((database, x ∷ queue) ∷ rest) o =
    IsOther-if s (str_eq database t) _ _ o (o.0, popleft-IsOther s t rest o.1)

pub popleft-IsKeyed : (s : String) (queues : Queues) → IsKeyed queues → IsKeyed (popleft s queues)
unfolding popleft IsKeyed
popleft-IsKeyed s [] k = tt
popleft-IsKeyed s ((database, []) ∷ rest) k =
    IsKeyed-if (str_eq database s) _ _ k
      (k.0, popleft-IsOther database s rest k.1, popleft-IsKeyed s rest k.2)
popleft-IsKeyed s ((database, x ∷ queue) ∷ rest) k =
    IsKeyed-if (str_eq database s) _ _ (k.0.1, k.1, k.2)
      (k.0, popleft-IsOther database s rest k.1, popleft-IsKeyed s rest k.2)

enqueue-IsOther :
    (s : String) (a : BaselineAttempt) (queues : Queues)
    → str_eq s a.database ≡ false
    → IsOther s queues
    → IsOther s (enqueue a queues)
unfolding enqueue
enqueue-IsOther s a [] e o = (e, tt)
enqueue-IsOther s a ((database, queue) ∷ rest) e o =
    IsOther-if s (str_eq database a.database) _ _ o (o.0, enqueue-IsOther s a rest e o.1)

enqueue-IsKeyed :
    (a : BaselineAttempt) (queues : Queues) → IsKeyed queues → IsKeyed (enqueue a queues)
unfolding enqueue IsKeyed
enqueue-IsKeyed a [] k = ((refl, tt), tt, tt)
enqueue-IsKeyed a ((database, queue) ∷ rest) k = elim (Bool-cases (str_eq database a.database)) [
  | inl e ↦ rw e (
    All-append (λ x. x.database ≡ database) queue (a ∷ []) k.0
        (sym ((eq_iff database a.database).0 e), tt),
    k.1,
    k.2,
  )
  | inr e ↦ rw e (k.0, enqueue-IsOther database a rest e k.1, enqueue-IsKeyed a rest k.2)
]

enqueue_all-IsKeyed :
    (queues : Queues) (pending : List BaselineAttempt)
    → IsKeyed queues
    → IsKeyed (enqueue_all queues pending)
unfolding enqueue_all
enqueue_all-IsKeyed queues [] k = k
enqueue_all-IsKeyed queues (a ∷ pending) k =
    enqueue_all-IsKeyed (enqueue a queues) pending (enqueue-IsKeyed a queues k)

pub database_queues-IsKeyed : (pending : List BaselineAttempt) → IsKeyed (database_queues pending)
unfolding database_queues IsKeyed
database_queues-IsKeyed pending = enqueue_all-IsKeyed [] pending tt

or_some :
    {A : Type 0} (x y : Option A) (a : A) → or_second x y ≡ some a → (x ≡ some a) ⊎ (y ≡ some a)
or_some (some x) y a h = inl h
or_some none y a h = inr h

if_none :
    {A : Type 0} (t : Bool) (x : Option A) (a : A) → (if t then x else none) ≡ some a → x ≡ some a
if_none true x a h = h
if_none false x a h = cc

and_left : (s t : Bool) → (s && t) ≡ true → s ≡ true
and_left s t h = ground arith

of_not : (t : Bool) → not t ≡ true → t ≡ false
of_not t h = ground arith

-- What the queues lose is the next attempt, and no attempt is active on its database.
pub next_attempt-free :
    (queues : Queues) (active started : List String) (allow : Bool) (a : BaselineAttempt)
    → IsKeyed queues
    → next_attempt queues active started allow ≡ some a
    → ((f : BaselineAttempt → ℕ) → queued f (popleft a.database queues) + f a ≡ queued f queues)
      × (member a.database active ≡ false)
unfolding next_attempt
next_attempt-free queues active started allow a k h = elim (or_some (first_head _ queues) _ a h) [
  | inl p ↦ (
    (λ f. queued-popleft f _ queues a k p),
    of_not _ (and_left _ _ (first_head-passes _ queues a k p)),
  )
  | inr p ↦
      let q = if_none allow (first_head (λ s. not (member s active)) queues) a p in
      ((λ f. queued-popleft f _ queues a k q), of_not _ (first_head-passes _ queues a k q))
]

pub next_attempt-remaining :
    (queues : Queues) (active started : List String) (allow : Bool) (a : BaselineAttempt)
    → IsKeyed queues
    → next_attempt queues active started allow ≡ some a
    → suc (remaining (popleft a.database queues)) ≡ remaining queues
next_attempt-remaining queues active started allow a k h = omega (
  arith,
  (next_attempt-free queues active started allow a k h).0 (λ x. 1),
  remaining-queued queues,
  remaining-queued (popleft a.database queues),
)
