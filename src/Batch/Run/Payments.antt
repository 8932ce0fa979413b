-- ===== src/Batch/Run/Payments.antt =====
-- baseline_batch.py: executors that succeed, and money that pays for all that is left.
use omni_benchmark.Prelude.{
  ◌⊎◌, total, ℕ, zero, suc, ◌+◌, ◌*◌, ◌≤◌, ◌<◌, ◌≡◌, refl, true, false, Option, some, List, [], ◌∷◌,
  length, length-append, ltb, arith, inl, inr,
}
use omni_benchmark.Batch.Charges.{reservation_cost-ceiling}
use omni_benchmark.Batch.{
  BaselineAttempt, BatchBudget, AttemptObservation, reservation_cost, hard_budget_cost,
}
use omni_benchmark.Batch.Queues.{remove, remaining}
use omni_benchmark.Action.{ok}
use omni_benchmark.Batch.Loop.{Environment, BatchState, submitted, charged, finish_attempt, admit}
use omni_benchmark.Batch.Loop.Money.{IsExact}
use omni_benchmark.Batch.Loop.Rules.{admit_rule}

module _ (env : Environment) (b : BatchBudget) where
  -- An outside world in which every executor succeeds, and leaves an observation that can be charged.
  pub record IsDependable (Live : env.World → Type 0) : Type 0 where
    pub clock : (w : env.World) → Live w → Live (env.monotonic w).1
    pub submits : (a : BaselineAttempt) (w : env.World) → Live w → Live (env.submit a w)
    pub waits :
        (futures : List BaselineAttempt) (w : env.World) → Live w → Live (env.wait futures w).1
    pub succeeds :
        (a : BaselineAttempt) (w : env.World)
        → Live w
        → ((env.succeeded a w).0 ≡ true) × Live (env.succeeded a w).1
    pub observes :
        (a : BaselineAttempt) (w : env.World)
        → Live w
        → (o : AttemptObservation) × (n : ℕ) × ((env.reconcile a w).0 ≡ ok (some o))
          × (hard_budget_cost b o ≡ ok n)
          × Live (env.reconcile a w).1

  pub finish_attempt-charged :
      (a : BaselineAttempt) (o : AttemptObservation) (cost : ℕ) (s : BatchState env b)
      → (env.succeeded a s.world).0 ≡ true
      → (env.reconcile a (env.succeeded a s.world).1).0 ≡ ok (some o)
      → hard_budget_cost b o ≡ ok cost
      → finish_attempt env b a s
        ≡ ok (
            charged env b o cost (record s {
              world = (env.reconcile a (env.succeeded a s.world).1).1;
              active = remove a.database s.active;
            }))
  unfolding finish_attempt
  finish_attempt-charged a o cost s e f g = rw (e, f, g) refl

  -- Whether a state has money for all that is left.
  abbrev pub IsPaid : List BaselineAttempt → BatchState env b → Type 0
  IsPaid done s =
      s.spent + b.attempt_cost_ceiling * (remaining s.queues + length s.futures + length done)
      ≤ b.cost_ceiling

  pub zero_or_more : (m : ℕ) → (m ≡ 0) ⊎ (0 < m)
  zero_or_more zero = inl refl
  zero_or_more (suc m) = inr (omega arith)

  -- What is in flight stays in flight while attempts are admitted.
  pub admit_stays :
      (deadline : Option ℕ) (slots : ℕ) (s : BatchState env b)
      → 0 < length s.futures
      → 0 < length (admit env b deadline slots s).futures
  unfolding submitted
  admit_stays =
      admit_rule env b (λ t. 0 < length t.futures) (λ t g. g)
        (λ t allow a e within g. omega (arith, length-append t.futures (a ∷ [])))

  pub paid_same :
      (x y spent : ℕ)
      → x ≡ y
      → spent + b.attempt_cost_ceiling * x ≤ b.cost_ceiling
      → spent + b.attempt_cost_ceiling * y ≤ b.cost_ceiling
  paid_same x y spent e h = rw (← e) h

  pub paid_spent :
      (x y left : ℕ)
      → x ≡ y
      → y + b.attempt_cost_ceiling * left ≤ b.cost_ceiling
      → x + b.attempt_cost_ceiling * left ≤ b.cost_ceiling
  paid_spent x y left e h = rw e h

  pub paid_next :
      (left done spent cost : ℕ)
      → cost ≤ b.attempt_cost_ceiling
      → spent + b.attempt_cost_ceiling * (left + suc done) ≤ b.cost_ceiling
      → spent + cost + b.attempt_cost_ceiling * (left + done) ≤ b.cost_ceiling
  paid_next left done spent cost e h = omega (arith, e, h)

  pub paid_one :
      (left spent : ℕ)
      → 0 < left
      → spent + b.attempt_cost_ceiling * left ≤ b.cost_ceiling
      → spent + b.attempt_cost_ceiling ≤ b.cost_ceiling
  paid_one zero spent k h = absurd (omega (arith, k))
  paid_one (suc left) spent k h = omega (arith, h)

  pub within_ceiling :
      IsExact env b.cost_ceiling
      → (spent cost : ℕ) (a : BaselineAttempt) → cost ≡ 0
      → spent + b.attempt_cost_ceiling ≤ b.cost_ceiling
      → ltb b.cost_ceiling (env.plus (env.plus spent cost) (reservation_cost b a)) ≡ false
  within_ceiling exact spent cost a e h =
      let small = reservation_cost-ceiling b a in
      let one = exact.plus_exact spent cost (omega (arith, e, h)) in
      let two =
        exact.plus_exact (env.plus spent cost) (reservation_cost b a)
          (omega (arith, one, e, h, small)) in
      ground (arith, one, two, e, h, small)

  pub no_total :
      (f : BaselineAttempt → ℕ) (xs : List BaselineAttempt) → length xs ≡ 0 → total f xs ≡ 0
  no_total f [] h = refl
  no_total f (x ∷ xs) h = absurd (omega (arith, h))
