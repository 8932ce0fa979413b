-- ===== src/Batch/Queues.antt =====
-- baseline_batch.py: the pending attempts as one queue for each database, in the order in which
-- the databases first appear.
pub mod Keyed
pub mod Finds
use Prim.Native.String.{compare}
use Prim.Native.Nat.{Ordering}
use text.Mathlib.Text.{◌==◌ as str_eq}
use omni_benchmark.Prelude.Text.{member}
use omni_benchmark.Prelude.{
  ℕ, ◌+◌, String, Bool, true, false, not, ◌&&◌, Option, none, some, List, [], ◌∷◌, ◌++◌, any,
  length, if◌then◌else◌, sort_by,
}
use omni_benchmark.Batch.{BaselineAttempt, attempt_id}

abbrev pub Queues : Type 0
Queues = List (String × List BaselineAttempt)

-- `queues.setdefault(attempt.database, deque()).append(attempt)`
unfoldable pub enqueue : BaselineAttempt → Queues → Queues
enqueue a [] = (a.database, a ∷ []) ∷ []
enqueue a ((database, queue) ∷ rest) =
    let later = enqueue a rest in
    if str_eq database a.database
    then (database, queue ++ (a ∷ [])) ∷ rest
    else (database, queue) ∷ later

unfoldable pub enqueue_all : Queues → List BaselineAttempt → Queues
enqueue_all queues [] = queues
enqueue_all queues (a ∷ pending) = enqueue_all (enqueue a queues) pending

-- `_database_queues`
unfoldable pub database_queues : List BaselineAttempt → Queues
unfolding enqueue_all
database_queues pending = enqueue_all [] pending

-- `_remaining`
unfoldable pub remaining : Queues → ℕ
remaining [] = 0
remaining ((database, queue) ∷ rest) = length queue + remaining rest

-- A loop of `_next_attempt`: the head of the first queue that is not empty and passes the test.
unfoldable pub first_head : (String → Bool) → Queues → Option BaselineAttempt
first_head test [] = none
first_head test ((database, []) ∷ rest) = first_head test rest
first_head test ((database, a ∷ queue) ∷ rest) =
    let later = first_head test rest in if test database then some a else later

abbrev pub or_second {ℓ} : {A : Type ℓ} → Option A → Option A → Option A
or_second (some a) b = some a
or_second none b = b

-- `_next_attempt`
unfoldable pub next_attempt :
    Queues → (active started : List String) → (allow_new_blocks : Bool) → Option BaselineAttempt
unfolding first_head
next_attempt queues active started allow_new_blocks =
    or_second (first_head (λ s. not (member s active) && member s started) queues)
      (if allow_new_blocks then first_head (λ s. not (member s active)) queues else none)

-- `queues[database].popleft()`
unfoldable pub popleft : String → Queues → Queues
popleft s [] = []
popleft s ((database, []) ∷ rest) =
    let later = popleft s rest in
    if str_eq database s then (database, []) ∷ rest else (database, []) ∷ later
popleft s ((database, a ∷ queue) ∷ rest) =
    let later = popleft s rest in
    if str_eq database s then (database, queue) ∷ rest else (database, a ∷ queue) ∷ later

-- `sorted(done, key=attempt_id)`
abbrev pub precedes : BaselineAttempt → BaselineAttempt → Bool
unfolding attempt_id
precedes a b = elim (compare (attempt_id a) (attempt_id b)) [ Ordering.gt ↦ false | _ ↦ true ]

unfoldable pub sort_done : List BaselineAttempt → List BaselineAttempt
sort_done done = sort_by precedes done

-- `active_databases.remove(database)`, of a database that is in the set once.
abbrev pub remove : String → List String → List String
remove s [] = []
remove s (t ∷ rest) = let later = remove s rest in if str_eq s t then rest else t ∷ later
