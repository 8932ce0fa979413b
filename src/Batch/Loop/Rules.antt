-- ===== src/Batch/Loop/Rules.antt =====
-- baseline_batch.py: what to show of a step so that it holds after the loops of an iteration.
use omni_benchmark.Prelude.{
  ◌≤◌, ltb→ge, zero, suc, ℕ, ◌≡◌, refl, Bool, true, false, Option, none, some, List, [], ◌∷◌,
  if◌then◌else◌,
}
use omni_benchmark.Action.{Result, ok, raise}
use omni_benchmark.Action.Yields.{Holds}
use omni_benchmark.Batch.{BatchBudget, BaselineAttempt, BatchError, reservation_cost}
use omni_benchmark.Batch.Queues.{next_attempt}
use omni_benchmark.Batch.Loop.{
  Environment, BatchState, allows_new_blocks, unless_broken, submitted, admit, launch, and_next,
  finish_attempt, complete_all, reserved,
}

module _ (env : Environment) (b : BatchBudget) where
  module _ (P : BatchState env b → Type 0)
      (ticks : (s : BatchState env b) → P s → P (record s { world = (env.monotonic s.world).1 }))
      (launches : (s : BatchState env b) (allow : Bool) (a : BaselineAttempt)
        → next_attempt s.queues s.active s.started allow ≡ some a
        → env.plus (env.plus s.spent (reserved env b s.futures)) (reservation_cost b a)
          ≤ b.cost_ceiling
        → P s
        → P (submitted env b a s)) where
    tick :
        (deadline : Option ℕ) (s : BatchState env b)
        → P s
        → P (record s { world = (allows_new_blocks env b deadline s.world).1 })
    tick none s p = p
    tick (some n) s p = ticks s p

    go_on :
        (s : BatchState env b) (allow : Bool) (o : Option BaselineAttempt)
        (rest : BatchState env b → BatchState env b)
        → next_attempt s.queues s.active s.started allow ≡ o
        → ((t : BatchState env b) → P t → P (rest t))
        → P s
        → P (unless_broken env b s (launch env b o s) rest)
    unfolding launch
    go_on s allow none rest e next p = p
    go_on s allow (some a) rest e next p =
        either _ (submitted env b a s) (λ k. next _ (launches s allow a e (ltb→ge _ _ k) p))
      where
        either :
            (t : Bool) (u : BatchState env b)
            → (t ≡ false → P (rest u))
            → P (unless_broken env b s (if t then none else some u) rest)
        either true u q = p
        either false u q = q refl

    -- What each launch keeps, the loop of launches keeps.
    pub admit_rule :
        (deadline : Option ℕ) (slots : ℕ) (s : BatchState env b)
        → P s
        → P (admit env b deadline slots s)
    unfolding admit
    admit_rule deadline zero s p = p
    admit_rule deadline (suc slots) s p =
        let (allow, w) = allows_new_blocks env b deadline s.world in
        go_on (record s { world = w }) allow _ (admit env b deadline slots) refl
          (admit_rule deadline slots) (tick deadline s p)

  module _ (P : List BaselineAttempt → BatchState env b → Type 0) (Q : BatchError → Type 0)
      (finishes : (a : BaselineAttempt) (done : List BaselineAttempt) (s : BatchState env b)
        → P (a ∷ done) s
        → Holds (P done) Q (finish_attempt env b a s)) where
    chained :
        (done : List BaselineAttempt) (r : Result BatchError (BatchState env b))
        (rest : BatchState env b → Result BatchError (BatchState env b))
        → ((s : BatchState env b) → P done s → Holds (P []) Q (rest s))
        → Holds (P done) Q r
        → Holds (P []) Q (and_next env b r rest)
    chained done (raise e) rest next h = h
    chained done (ok s) rest next h = next s h

    -- What each end of an attempt keeps of those that are still to come, the loop over them keeps.
    pub complete_all_rule :
        (done : List BaselineAttempt) (s : BatchState env b)
        → P done s
        → Holds (P []) Q (complete_all env b done s)
    unfolding complete_all
    complete_all_rule [] s p = p
    complete_all_rule (a ∷ done) s p =
        chained done _ _ (complete_all_rule done) (finishes a done s p)
