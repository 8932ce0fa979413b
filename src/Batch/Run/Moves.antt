-- ===== src/Batch/Run/Moves.antt =====
-- baseline_batch.py: admitting attempts keeps how many are queued or in flight.
use omni_benchmark.Prelude.{
  ℕ, zero, suc, ◌+◌, ◌≡◌, refl, Bool, true, false, Option, none, some, [], ◌∷◌, length,
  length-append, arith, if◌then◌else◌,
}
use omni_benchmark.Batch.{BatchBudget, BaselineAttempt}
use omni_benchmark.Batch.Queues.{next_attempt, remaining, popleft}
use omni_benchmark.Batch.Queues.Keyed.{IsKeyed, popleft-IsKeyed, next_attempt-remaining}
use omni_benchmark.Batch.Loop.{
  Environment, BatchState, allows_new_blocks, unless_broken, submitted, admit, launch,
}

module _ (env : Environment) (b : BatchBudget) where
  -- The attempts that are queued or in flight.
  abbrev pub left_over : BatchState env b → ℕ
  left_over s = remaining s.queues + length s.futures

  abbrev pub Moves : BatchState env b → Option (BatchState env b) → Type 0
  Moves s none = Unit
  Moves s (some t) = IsKeyed t.queues × (left_over t ≡ left_over s)

  Moves-if :
      (s t : BatchState env b) (c : Bool) → Moves s (some t) → Moves s (if c then none else some t)
  Moves-if s t true h = tt
  Moves-if s t false h = h

  launch-Moves :
      (o : Option BaselineAttempt) (s : BatchState env b)
      → ((a : BaselineAttempt)
          → o ≡ some a
          → suc (remaining (popleft a.database s.queues)) ≡ remaining s.queues)
      → IsKeyed s.queues
      → Moves s (launch env b o s)
  unfolding launch submitted
  launch-Moves none s h k = tt
  launch-Moves (some a) s h k = Moves-if s _ _ (
    popleft-IsKeyed a.database s.queues k,
    omega (arith, h a refl, length-append s.futures (a ∷ [])),
  )

  unless_broken-Moves :
      (s : BatchState env b) (o : Option (BatchState env b))
      (rest : BatchState env b → BatchState env b)
      → Moves s o
      → IsKeyed s.queues
      → ((t : BatchState env b) → IsKeyed t.queues → Moves t (some (rest t)))
      → Moves s (some (unless_broken env b s o rest))
  unless_broken-Moves s none rest h k next = (k, refl)
  unless_broken-Moves s (some t) rest h k next =
      let m = next t h.0 in (m.0, omega (arith, m.1, h.1))

  pub admit-Moves :
      (deadline : Option ℕ) (slots : ℕ) (s : BatchState env b)
      → IsKeyed s.queues
      → Moves s (some (admit env b deadline slots s))
  unfolding admit
  admit-Moves deadline zero s k = (k, refl)
  admit-Moves deadline (suc slots) s k =
      let (allow, w) = allows_new_blocks env b deadline s.world in
      let s' = record s { world = w } in
      let next = next_attempt s.queues s.active s.started allow in
      unless_broken-Moves s' (launch env b next s') (admit env b deadline slots)
        (launch-Moves next s'
          (λ a e. next_attempt-remaining s.queues s.active s.started allow a k e) k)
        k (λ t l. admit-Moves deadline slots t l)
