-- ===== src/Batch/Loop/Exclusive.antt =====
-- baseline_batch.py: `active_databases` is the databases of what is in flight, each of them once.
use text.Mathlib.Text.{◌==◌ as str_eq}
use text.Mathlib.TextEquality.{eq_iff}
use text.Mathlib.TextPositions.{eq_refl}
use omni_benchmark.Prelude.{
  suc, ◌+◌, ◌≤◌, ◌<◌, ◌≡◌, refl, ap, String, ℕ, Bool, not, Option, none, some, List, [], ◌∷◌, keep,
  total, total-append, total-keep, total-sort_by, arith, Bool-cases, inl, inr,
}
use omni_benchmark.Prelude.Text.{at_most_once, hits, occurrences}
use omni_benchmark.Action.{Result, ok, raise}
use omni_benchmark.Action.Yields.{Holds, Anything, Holds-if}
use omni_benchmark.Batch.{
  BatchBudget, BaselineAttempt, AttemptObservation, BatchError, hard_budget_cost, executor_failed,
}
use omni_benchmark.Batch.Queues.{precedes, sort_done, next_attempt, remove}
use omni_benchmark.Batch.Queues.Keyed.{IsKeyed, popleft-IsKeyed, next_attempt-free}
use omni_benchmark.Batch.Loop.Bounds.{KeepsAttempts}
use omni_benchmark.Batch.Loop.{
  Environment, BatchState, submitted, charged, charge, observe, finish_attempt,
}

-- How many of the attempts are about a database.
abbrev pub of_database : String → BaselineAttempt → ℕ
of_database d a = hits d a.database

remove-occurrences :
    (d s : String) (texts : List String)
    → 0 < occurrences s texts
    → occurrences d (remove s texts) + hits d s ≡ occurrences d texts
remove-occurrences d s [] h = absurd (omega (arith, h))
remove-occurrences d s (t ∷ texts) h = elim (Bool-cases (str_eq s t)) [
  | inl e ↦ rw (e, (eq_iff s t).0 e) (omega arith)
  | inr e ↦ rw e (omega (arith, remove-occurrences d s texts (ground (arith, h, e))))
]

module _ (env : Environment) (b : BatchBudget) where
  -- The databases that are active are those of the attempts in flight and of those that are done and
  -- still to be finished, and no database is active twice.
  pub record IsExclusive (done : List BaselineAttempt) (s : BatchState env b) : Type 0 where
    pub active :
        (d : String)
        → occurrences d s.active ≡ total (of_database d) done + total (of_database d) s.futures
    pub once : (d : String) → occurrences d s.active ≤ 1
    pub keyed : IsKeyed s.queues

  pub submitted-IsExclusive :
      (s : BatchState env b) (allow : Bool) (a : BaselineAttempt)
      → next_attempt s.queues s.active s.started allow ≡ some a
      → IsExclusive [] s
      → IsExclusive [] (submitted env b a s)
  unfolding submitted
  submitted-IsExclusive s allow a e h =
      let free = (next_attempt-free s.queues s.active s.started allow a h.keyed e).1 in
      record {
        active = λ d. omega (arith, h.active d, total-append (of_database d) s.futures (a ∷ []));
        once = λ d. at_most_once d a.database s.active free (h.once d);
        keyed = popleft-IsKeyed a.database s.queues h.keyed;
      }

  -- What an attempt that ends well leaves: its database is no longer active.
  pub record Leaves (a : BaselineAttempt) (s t : BatchState env b) : Type 0 where
    pub queues : t.queues ≡ s.queues
    pub futures : t.futures ≡ s.futures
    pub active : t.active ≡ remove a.database s.active
    pub counted : t.completed ≡ suc s.completed
    pub noted :
        (f : BaselineAttempt → ℕ)
        → total (λ o. f o.attempt) t.observations ≡ total (λ o. f o.attempt) s.observations + f a

  -- The state that the end of an attempt is charged in.
  abbrev freed : BaselineAttempt → env.World → BatchState env b → BatchState env b
  freed a w s = record s { world = w; active = remove a.database s.active }

  charge-Leaves :
      (a : BaselineAttempt) (o : AttemptObservation) (cost : Result BatchError ℕ) (w : env.World)
      (s : BatchState env b)
      → o.attempt ≡ a
      → Holds (Leaves a s) Anything (charge env b o cost (freed a w s))
  unfolding charged
  charge-Leaves a o (raise e) w s same = tt
  charge-Leaves a o (ok n) w s same = record {
    queues = refl;
    futures = refl;
    active = refl;
    counted = refl;
    noted = λ f. omega (
      arith,
      total-append (λ (x : AttemptObservation). f x.attempt) s.observations (o ∷ []),
      ap f same,
    );
  }

  observe-Leaves :
      (a : BaselineAttempt) (found : Result BatchError (Option AttemptObservation)) (w : env.World)
      (s : BatchState env b)
      → ((o : AttemptObservation) → found ≡ ok (some o) → o.attempt ≡ a)
      → Holds (Leaves a s) Anything (observe env b found (freed a w s))
  observe-Leaves a (raise e) w s same = tt
  observe-Leaves a (ok none) w s same = tt
  observe-Leaves a (ok (some o)) w s same =
      charge-Leaves a o (hard_budget_cost b o) w s (same o refl)

  pub finish_attempt-Leaves :
      KeepsAttempts env b
      → (a : BaselineAttempt) (s : BatchState env b)
      → Holds (Leaves a s) Anything (finish_attempt env b a s)
  unfolding finish_attempt
  finish_attempt-Leaves same a s =
      let (fine, w) = env.succeeded a s.world in
      let (found, w') = env.reconcile a w in
      Holds-if _ _ fine _ (raise executor_failed)
        (observe-Leaves a found w' s (λ o e. same a w w' o (ap (λ x. (x, w')) e))) tt

  pub Leaves-IsExclusive :
      (a : BaselineAttempt) (done : List BaselineAttempt) (s t : BatchState env b)
      → IsExclusive (a ∷ done) s
      → Leaves a s t
      → IsExclusive done t
  Leaves-IsExclusive a done s t h l =
      let here : 0 < occurrences a.database s.active =
        rw (h.active a.database, eq_refl a.database) (omega arith) in
      record {
        active = λ d. omega (
          arith,
          ap (occurrences d) l.active,
          remove-occurrences d a.database s.active here,
          h.active d,
          ap (total (of_database d)) l.futures,
        );
        once = λ d. omega (
          arith,
          ap (occurrences d) l.active,
          remove-occurrences d a.database s.active here,
          h.once d,
        );
        keyed = rw l.queues h.keyed;
      }

  pub waited-IsExclusive :
      (test : BaselineAttempt → Bool) (w : env.World) (s : BatchState env b)
      → IsExclusive [] s
      → IsExclusive
          (sort_done (keep test s.futures))
          (record s { world = w; futures = keep (λ a. not (test a)) s.futures })
  unfolding sort_done
  waited-IsExclusive test w s h = record {
    active = λ d. omega (
      arith,
      h.active d,
      total-keep (of_database d) test s.futures,
      total-sort_by (of_database d) precedes (keep test s.futures),
    );
    once = h.once;
    keyed = h.keyed;
  }
