-- ===== src/Batch/Queues/Finds.antt =====
-- baseline_batch.py: when `_next_attempt` finds an attempt.
use omni_benchmark.Prelude.Text.{member}
use omni_benchmark.Prelude.{
  ◌<◌, ◌≡◌, refl, String, Bool, true, false, not, ◌&&◌, Option, none, some, List, [], ◌∷◌, arith,
}
use omni_benchmark.Batch.{BaselineAttempt}
use omni_benchmark.Batch.Queues.{Queues, first_head, next_attempt, or_second, remaining}

-- Something is next when something is queued and no test rules a database out.
first_head-finds :
    (test : String → Bool) (queues : Queues)
    → ((s : String) → test s ≡ true)
    → 0 < remaining queues
    → (a : BaselineAttempt) × (first_head test queues ≡ some a)
unfolding first_head remaining
first_head-finds test [] h k = absurd (omega (arith, k))
first_head-finds test ((database, []) ∷ rest) h k = first_head-finds test rest h (omega (arith, k))
first_head-finds test ((database, a ∷ queue) ∷ rest) h k = (a, rw (h database) refl)

or_second-finds :
    {A : Type 0} (x y : Option A) (a : A) → y ≡ some a → (c : A) × (or_second x y ≡ some c)
or_second-finds none y a e = (a, e)
or_second-finds (some c) y a e = (c, refl)

pub next_attempt-finds :
    (queues : Queues) (active started : List String)
    → ((s : String) → member s active ≡ false)
    → 0 < remaining queues
    → (a : BaselineAttempt) × (next_attempt queues active started true ≡ some a)
unfolding next_attempt
next_attempt-finds queues active started h k =
    let found = first_head-finds (λ s. not (member s active)) queues (λ s. rw (h s) refl) k in
    or_second-finds (first_head (λ s. not (member s active) && member s started) queues) _ found.0
      found.1
