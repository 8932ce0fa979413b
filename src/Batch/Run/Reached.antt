-- ===== src/Batch/Run/Reached.antt =====
-- baseline_batch.py: the states that a batch goes through, as a relation of its steps.
use omni_benchmark.Batch.Run.{
  complete, BatchOutcome, reported, stop, and_go_on, after_admission, batch_loop,
}
use omni_benchmark.Prelude.{
  total, total-append, sort_by, ℕ, zero, suc, ◌+◌, ◌≤◌, ◌≡◌, refl, ap, Bool, true, false, not,
  Option, some, List, [], ◌∷◌, keep, length, total-keep, total-sort_by, total-length, arith,
  if◌then◌else◌, is_empty, ◌==◌, ◌&&◌, ◌-◌,
}
use mathlib.Core.Path.{subst}
use omni_benchmark.Action.{Result, ok, raise}
use omni_benchmark.Action.Yields.{Holds, Anything}
use omni_benchmark.Batch.{BatchBudget, BaselineAttempt, BatchError, reservation_cost}
use omni_benchmark.Batch.Queues.{precedes, sort_done, next_attempt, remaining}
use omni_benchmark.Batch.Queues.Keyed.{queued, next_attempt-free}
use omni_benchmark.Batch.Loop.{
  Environment, BatchState, reserved, submitted, admit, finish_attempt, collect,
}
use omni_benchmark.Batch.Loop.Bounds.{KeepsAttempts}
use omni_benchmark.Batch.Loop.Rules.{admit_rule, complete_all_rule}
use omni_benchmark.Batch.Loop.Exclusive.{
  IsExclusive, submitted-IsExclusive, Leaves, finish_attempt-Leaves, Leaves-IsExclusive,
  waited-IsExclusive,
}

pub sorted_total :
    (f : BaselineAttempt → ℕ) (test : BaselineAttempt → Bool) (xs : List BaselineAttempt)
    → total f (keep (λ a. not (test a)) xs) + total f (sort_done (keep test xs)) ≡ total f xs
unfolding sort_done
sorted_total f test xs =
    omega (arith, total-sort_by f precedes (keep test xs), total-keep f test xs)

pub sorted_length :
    (test : BaselineAttempt → Bool) (xs : List BaselineAttempt)
    → length (keep (λ a. not (test a)) xs) + length (sort_done (keep test xs)) ≡ length xs
unfolding sort_done
sorted_length test xs = omega (
  arith,
  total-length (sort_by precedes (keep test xs)),
  total-sort_by (λ _. 1) precedes (keep test xs),
  total-keep (λ _. 1) test xs,
  total-length (keep (λ a. not (test a)) xs),
  total-length xs,
)

module _ (env : Environment) (b : BatchBudget) where
  -- The states after the steps of a batch, with what is done and still to be finished.
  pub data Reached (start : BatchState env b)
      : List BaselineAttempt → BatchState env b → Type 0 where
    begun : Reached start [] start
    read_clock :
        (s : BatchState env b)
        → Reached start [] s
        → Reached start [] (record s { world = (env.monotonic s.world).1 })
    launched :
        (s : BatchState env b) (allow : Bool) (a : BaselineAttempt)
        → next_attempt s.queues s.active s.started allow ≡ some a
        → env.plus (env.plus s.spent (reserved env b s.futures)) (reservation_cost b a)
          ≤ b.cost_ceiling
        → Reached start [] s
        → Reached start [] (submitted env b a s)
    waited :
        (s : BatchState env b)
        → Reached start [] s
        → Reached start (sort_done (keep (env.wait s.futures s.world).0 s.futures)) (record s {
          world = (env.wait s.futures s.world).1;
          futures = keep (λ a. not ((env.wait s.futures s.world).0 a)) s.futures;
        })
    finished :
        (a : BaselineAttempt) (done : List BaselineAttempt) (s t : BatchState env b)
        → finish_attempt env b a s ≡ ok t
        → Reached start (a ∷ done) s
        → Reached start done t

  finished_well :
      (start : BatchState env b) (a : BaselineAttempt) (done : List BaselineAttempt)
      (s : BatchState env b) (r : Result BatchError (BatchState env b))
      → finish_attempt env b a s ≡ r
      → Reached start (a ∷ done) s
      → Holds (Reached start done) Anything r
  finished_well start a done s (ok t) e h = finished a done s t e h
  finished_well start a done s (raise x) e h = tt

  admit-Reached :
      (start : BatchState env b) (deadline : Option ℕ) (slots : ℕ) (s : BatchState env b)
      → Reached start [] s
      → Reached start [] (admit env b deadline slots s)
  admit-Reached start = admit_rule env b (Reached start []) read_clock launched

  collect-Reached :
      (start s : BatchState env b)
      → Reached start [] s
      → Holds (Reached start []) Anything (collect env b s)
  unfolding collect
  collect-Reached start s h =
      complete_all_rule env b (Reached start) Anything
        (λ a done s h. finished_well start a done s _ refl h) _ _ (waited s h)

  -- What is reported is a state that was reached.
  unfoldable pub Reports : BatchState env b → BatchOutcome env b → Type 0
  Reports start (reported s status) = Reached start [] s
  Reports start other = Unit

  Reports-if :
      (start : BatchState env b) (t : Bool) (x y : BatchOutcome env b)
      → Reports start x
      → Reports start y
      → Reports start (if t then x else y)
  Reports-if start true x y h k = h
  Reports-if start false x y h k = k

  Reports-and_go_on :
      (start : BatchState env b) (r : Result BatchError (BatchState env b))
      (next : BatchState env b → BatchOutcome env b)
      → Holds (Reached start []) Anything r
      → ((t : BatchState env b) → Reached start [] t → Reports start (next t))
      → Reports start (and_go_on env b r next)
  unfolding Reports
  Reports-and_go_on start (raise e) next h k = tt
  Reports-and_go_on start (ok t) next h k = k t h

  pub batch_loop-Reports :
      (start : BatchState env b) (maximum : ℕ) (deadline : Option ℕ) (fuel : ℕ)
      (s : BatchState env b)
      → Reached start [] s
      → Reports start (batch_loop env b maximum deadline fuel s)
  unfolding batch_loop after_admission stop Reports
  batch_loop-Reports start maximum deadline zero s h = tt
  batch_loop-Reports start maximum deadline (suc fuel) s h =
      let s' = admit env b deadline (maximum - length s.futures) s in
      let h' = admit-Reached start deadline (maximum - length s.futures) s h in
      Reports-if start (remaining s.queues == 0 && is_empty s.futures) (reported s complete) _ h (
        Reports-if start (is_empty s'.futures) (stop env b deadline s') _ h' (
          Reports-and_go_on start (collect env b s') _ (collect-Reached start s' h')
            (batch_loop-Reports start maximum deadline fuel)))

  module _ (attempts : List BaselineAttempt) where
    -- The invariant of the steps from a schedule: whatever the weight of an attempt, what is observed,
    -- queued, in flight and still to be finished weighs as much as the schedule.
    pub record IsSound (done : List BaselineAttempt) (s : BatchState env b) : Type 0 where
      pub exclusive : IsExclusive env b done s
      pub accounted :
          (f : BaselineAttempt → ℕ)
          → total (λ o. f o.attempt) s.observations
              + queued f s.queues
              + total f s.futures
              + total f done
            ≡ total f attempts

    submitted-IsSound :
        (s : BatchState env b) (allow : Bool) (a : BaselineAttempt)
        → next_attempt s.queues s.active s.started allow ≡ some a
        → IsSound [] s
        → IsSound [] (submitted env b a s)
    unfolding submitted
    submitted-IsSound s allow a e h = record {
      exclusive = submitted-IsExclusive env b s allow a e h.exclusive;
      accounted = λ f. omega (
        arith,
        h.accounted f,
        (next_attempt-free s.queues s.active s.started allow a h.exclusive.keyed e).0 f,
        total-append f s.futures (a ∷ []),
      );
    }

    Leaves-IsSound :
        (a : BaselineAttempt) (done : List BaselineAttempt) (s t : BatchState env b)
        → IsSound (a ∷ done) s
        → Leaves env b a s t
        → IsSound done t
    Leaves-IsSound a done s t h l = record {
      exclusive = Leaves-IsExclusive env b a done s t h.exclusive l;
      accounted = λ f.
          omega (arith, h.accounted f, l.noted f, ap (queued f) l.queues, ap (total f) l.futures);
    }

    finished-IsSound :
        (a : BaselineAttempt) (done : List BaselineAttempt) (s t : BatchState env b)
        (r : Result BatchError (BatchState env b))
        → r ≡ ok t
        → Holds (Leaves env b a s) Anything r
        → IsSound (a ∷ done) s
        → IsSound done t
    finished-IsSound a done s t (ok u) e l h =
        let same : u ≡ t = cc in subst (IsSound done) same (Leaves-IsSound a done s u h l)
    finished-IsSound a done s t (raise x) e l h = cc

    -- If the repository finds observations of the attempts that it is asked for, no database is active
    -- twice at the beginning, the active databases are those of the attempts in flight, and the
    -- attempts observed, queued and in flight are those of the schedule, each as often as there, then
    -- this holds in every state that a batch reaches by its steps, with the attempts that are done
    -- and still to be finished.
    pub Reached-IsSound :
        KeepsAttempts env b
        → (start s : BatchState env b) (done : List BaselineAttempt) → IsSound [] start
        → Reached start done s
        → IsSound done s
    Reached-IsSound same start s done k begun = k
    Reached-IsSound same start s done k (read_clock t h) =
        let i = Reached-IsSound same start t [] k h in
        record {
          exclusive = record {
            active = i.exclusive.active;
            once = i.exclusive.once;
            keyed = i.exclusive.keyed;
          };
          accounted = i.accounted;
        }
    Reached-IsSound same start s done k (launched t allow a e within h) =
        submitted-IsSound t allow a e (Reached-IsSound same start t [] k h)
    Reached-IsSound same start s done k (waited t h) =
        let i = Reached-IsSound same start t [] k h in
        let test = (env.wait t.futures t.world).0 in
        record {
          exclusive = waited-IsExclusive env b test _ t i.exclusive;
          accounted = λ f. omega (arith, i.accounted f, sorted_total f test t.futures);
        }
    Reached-IsSound same start s done k (finished a rest t u e h) =
        finished-IsSound a rest t u _ e (finish_attempt-Leaves env b same a t)
          (Reached-IsSound same start t (a ∷ rest) k h)
