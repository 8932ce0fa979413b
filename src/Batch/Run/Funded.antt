-- ===== src/Batch/Run/Funded.antt =====
-- baseline_batch.py: steps of a batch that has money for all that is left, with executors that succeed.
use omni_benchmark.Prelude.{
  total, total-map, map, ◌++◌, ℕ, zero, suc, ◌+◌, ◌≤◌, ◌<◌, ◌≡◌, ap, String, Bool, false, not,
  Option, none, some, List, [], ◌∷◌, length, length-append, arith, inl, inr, keep,
}
use omni_benchmark.Batch.Charges.{hard_budget_cost-ceiling}
use omni_benchmark.Batch.Loop.Exclusive.{of_database, Leaves, finish_attempt-Leaves, IsExclusive}
use omni_benchmark.Batch.Queues.Finds.{next_attempt-finds}
use omni_benchmark.Batch.Run.Reached.{
  waited, read_clock, sorted_length, launched, Reached, Reached-IsSound, finished, IsSound,
}
use omni_benchmark.Split.Select.Ids.{absent}
use omni_benchmark.Batch.Run.Moves.{left_over}
use omni_benchmark.Batch.{BaselineAttempt, BatchBudget, BatchError, reservation_cost}
use omni_benchmark.Batch.Queues.{next_attempt, remaining, popleft, sort_done}
use omni_benchmark.Prelude.Text.{member}
use omni_benchmark.Action.{Result, ok, raise}
use omni_benchmark.Action.Yields.{Holds, Anything}
use omni_benchmark.Batch.Queues.Keyed.{next_attempt-remaining}
use omni_benchmark.Batch.Loop.{
  Environment, BatchState, submitted, charged, charge, finish_attempt, collect, admit, launch,
  reserved,
}
use omni_benchmark.Batch.Loop.Bounds.{KeepsAttempts}
use omni_benchmark.Batch.Loop.Money.{IsExact}
use omni_benchmark.Batch.Loop.Rules.{admit_rule, complete_all_rule}
use omni_benchmark.Batch.Run.Ends.{WaitsForOne}
use omni_benchmark.Batch.Run.Payments.{
  IsDependable, finish_attempt-charged, IsPaid, zero_or_more, admit_stays, paid_same, paid_spent,
  paid_next, paid_one, within_ceiling, no_total,
}

module _ (env : Environment) (b : BatchBudget) where
  module _ (Live : env.World → Type 0) (dependable : IsDependable env b Live)
      (exact : IsExact env b.cost_ceiling) (same : KeepsAttempts env b) (n : List BaselineAttempt)
      (start : BatchState env b) (sound : IsSound env b n [] start) where
    pub record IsFunded (done : List BaselineAttempt) (s : BatchState env b) : Type 0 where
      pub reached : Reached env b start done s
      pub paid : IsPaid env b done s
      pub live : Live s.world

    submitted-IsFunded :
        (s : BatchState env b) (allow : Bool) (a : BaselineAttempt)
        → next_attempt s.queues s.active s.started allow ≡ some a
        → env.plus (env.plus s.spent (reserved env b s.futures)) (reservation_cost b a)
          ≤ b.cost_ceiling
        → IsFunded [] s
        → IsFunded [] (submitted env b a s)
    unfolding submitted
    submitted-IsFunded s allow a e within h =
        let i = Reached-IsSound env b n same start s [] sound h.reached in
        let moved : remaining (popleft a.database s.queues) + length (s.futures ++ (a ∷ []))
            ≡ remaining s.queues + length s.futures =
          omega (
            arith,
            length-append s.futures (a ∷ []),
            next_attempt-remaining s.queues s.active s.started allow a i.exclusive.keyed e,
          ) in
        record {
          reached = launched s allow a e within h.reached;
          paid = paid_same env b _ _ s.spent (omega (arith, moved)) h.paid;
          live = dependable.submits a s.world h.live;
        }

    finish_attempt-IsFunded :
        (a : BaselineAttempt) (done : List BaselineAttempt) (s : BatchState env b)
        → IsFunded (a ∷ done) s
        → Holds (IsFunded done) (λ e. ⊥) (finish_attempt env b a s)
    unfolding charged
    finish_attempt-IsFunded a done s h =
        let fine = dependable.succeeds a s.world h.live in
        let (o, cost, found, charge, live) = dependable.observes a _ fine.1 in
        let e = finish_attempt-charged env b a o cost s fine.0 found charge in
        let next =
          paid_next env b _ (length done) s.spent cost (hard_budget_cost-ceiling b o cost charge)
            h.paid in
        rw e (record {
          reached = finished a done s _ e h.reached;
          paid = paid_spent env b _ _ _ (exact.plus_exact s.spent cost (omega (arith, next))) next;
          live = live;
        })

    waited-IsFunded :
        (s : BatchState env b)
        → IsFunded [] s
        → IsFunded (sort_done (keep (env.wait s.futures s.world).0 s.futures)) (record s {
          world = (env.wait s.futures s.world).1;
          futures = keep (λ a. not ((env.wait s.futures s.world).0 a)) s.futures;
        })
    waited-IsFunded s h = record {
      reached = waited s h.reached;
      paid =
          paid_same env b _ _ s.spent
            (omega (arith, sorted_length (env.wait s.futures s.world).0 s.futures)) h.paid;
      live = dependable.waits s.futures s.world h.live;
    }

    pub admit-IsFunded :
        (deadline : Option ℕ) (slots : ℕ) (s : BatchState env b)
        → IsFunded [] s
        → IsFunded [] (admit env b deadline slots s)
    admit-IsFunded =
        admit_rule env b (IsFunded [])
          (λ s h. record {
            reached = read_clock s h.reached;
            paid = h.paid;
            live = dependable.clock s.world h.live;
          })
          submitted-IsFunded

    -- Funded, and fewer than `m` attempts are left.
    abbrev pub Closer : ℕ → List BaselineAttempt → BatchState env b → Type 0
    Closer m done s = IsFunded done s × (left_over env b s < m)

    Leaves-Closer :
        (m : ℕ) (a : BaselineAttempt) (done : List BaselineAttempt) (s : BatchState env b)
        (r : Result BatchError (BatchState env b))
        → left_over env b s < m
        → Holds (Leaves env b a s) Anything r
        → Holds (IsFunded done) (λ e. ⊥) r
        → Holds (Closer m done) (λ e. ⊥) r
    Leaves-Closer m a done s (ok t) k l h =
        (h, omega (arith, k, ap remaining l.queues, ap length l.futures))
    Leaves-Closer m a done s (raise e) k l h = h

    pub collect-Closer :
        (s : BatchState env b)
        → WaitsForOne env b
        → 0 < length s.futures
        → IsFunded [] s
        → Holds (Closer (left_over env b s) []) (λ e. ⊥) (collect env b s)
    unfolding collect
    collect-Closer s waits k h =
        complete_all_rule env b (Closer (left_over env b s)) (λ e. ⊥)
          (λ a done t c.
            Leaves-Closer _ a done t _ c.1 (finish_attempt-Leaves env b same a t)
              (finish_attempt-IsFunded a done t c.0))
          _ _ (waited-IsFunded s h, omega (arith, waits s.futures s.world k))

    idle :
        (s : BatchState env b)
        → length s.futures ≡ 0
        → IsExclusive env b [] s
        → (d : String) → member d s.active ≡ false
    idle s e h d =
        absent d s.active (omega (arith, h.active d, no_total env b (of_database d) s.futures e))

    none_reserved : (s : BatchState env b) → length s.futures ≡ 0 → reserved env b s.futures ≡ 0
    unfolding reserved
    none_reserved s e =
        let nothing : total (λ n. n) (map (reservation_cost b) s.futures) ≡ 0 = omega (
          arith,
          total-map (λ n. n) (reservation_cost b) s.futures,
          no_total env b (reservation_cost b) s.futures e,
        ) in
        omega (
          arith,
          exact.sum_exact (map (reservation_cost b) s.futures) (omega (arith, nothing)),
          nothing,
        )

    launch-grows :
        (slots : ℕ) (s : BatchState env b)
        → length s.futures ≡ 0
        → 0 < remaining s.queues
        → IsFunded [] s
        → 0 < length (admit env b none (suc slots) s).futures
    unfolding admit launch submitted
    launch-grows slots s e k h =
        let i = Reached-IsSound env b n same start s [] sound h.reached in
        let next = next_attempt-finds s.queues s.active s.started (idle s e i.exclusive) k in
        let a = next.0 in
        let money =
          paid_one env b (remaining s.queues) s.spent k
            (paid_same env b _ _ s.spent (omega (arith, e)) h.paid) in
        let fits =
          within_ceiling env b exact s.spent (reserved env b s.futures) a (none_reserved s e)
            money in
        rw (next.1, fits)
          (admit_stays env b none slots (submitted env b a s)
            (omega (arith, length-append s.futures (a ∷ []))))

    pub admit-grows :
        (slots : ℕ) (s : BatchState env b)
        → 0 < slots + length s.futures
        → 0 < left_over env b s
        → IsFunded [] s
        → 0 < length (admit env b none slots s).futures
    admit-grows zero s l k h = admit_stays env b none zero s (omega (arith, l))
    admit-grows (suc slots) s l k h = elim (zero_or_more env b (length s.futures)) [
      | inl e ↦ launch-grows slots s e (omega (arith, k, e)) h
      | inr m ↦ admit_stays env b none (suc slots) s m
    ]
