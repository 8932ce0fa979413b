-- ===== src/Sealed/Query/Isolates.antt =====
-- sealed_scoring.py: the evaluation on two isolates stays within the protocol.
use omni_benchmark.Sealed.Calls.{
  failing, or_else, result_or, State, reset_and_release, finalize_pair,
}
use omni_benchmark.Sealed.{
  ScoringMode, SealedScoringResult, Scorers, Provider, Call, acquired, reset, released, Phased, ran,
  ended,
}
use omni_benchmark.Prelude.{◌≡◌, refl, List, ◌∷◌, Option, none, some, arith}
use omni_benchmark.Sealed.Query.{
  after_gold, after_candidate, evaluate_prepared, unless_failed, evaluate_with_isolates,
  score_on_isolates,
}
use omni_benchmark.Sealed.Compare.{Case}
use omni_benchmark.Action.{◌>>=◌, try_except, try_finally, pure}
use mathlib.Core.Path.{subst, sym}
use mathlib.Core.Logic.{inl, inr}
use omni_benchmark.Postgres.{Driver}
use omni_benchmark.Sealed.Phases.{Act, run_cleanup_pair}
use omni_benchmark.Sealed.Protocol.{
  Visits, Visits-from, Session, pair, Logs, Chains-Visits, Logs-pure, Logs-lift, Logs-bind,
  Logs-finally,
}
use omni_benchmark.Sealed.Query.Leases.{
  run_trusted_phase-Visits, run_candidate-Visits, run_gold-Visits,
}

module _ (d : Driver) (p : Provider d) (sc : Scorers d.Cell) where
  open p use {Isolate}

  pub pure_tail :
      {A B : Type 0} (m : Act d p A) (f : A → B) (s : State d p)
      → ((m >>= λ a. pure (f a)) s).1 ≡ (m s).1
  unfolding ◌>>=◌
  pure_tail m f s = ground arith

  pub reset_and_release-log :
      (mode : ScoringMode) (a : Isolate)
      → Logs (λ l l'. l' ≡ released a ∷ reset a ∷ l) (reset_and_release d p mode a)
  unfolding reset_and_release failing ◌>>=◌ try_except
  reset_and_release-log mode a = record { at = λ s. ground arith }

  finalize_pair-log :
      (mode : ScoringMode) (a b : Isolate)
      → Logs
          (λ l l'. l' ≡ released b ∷ reset b ∷ released a ∷ reset a ∷ l)
          (finalize_pair d p mode a b)
  unfolding finalize_pair reset_and_release failing ◌>>=◌ try_except
  finalize_pair-log mode a b = record { at = λ s. ground arith }

  module _ (c : Case d sc) (mode : ScoringMode) (a b : Isolate) where
    pub after_gold-Visits :
        (r : _) (g : Phased d.Cell) → Logs (Visits a b) (after_gold d p sc c mode r g)
    unfolding after_gold
    after_gold-Visits r (ended failure) = Logs-pure Chains-Visits _
    after_gold-Visits r (ran g) = Logs-lift Chains-Visits _

    after_candidate-Visits :
        (r : Phased d.Cell) → Logs (Visits a b) (after_candidate d p sc c mode b r)
    unfolding after_candidate
    after_candidate-Visits (ended failure) = Logs-pure Chains-Visits _
    after_candidate-Visits (ran r) =
        Logs-bind Chains-Visits _ _ (run_gold-Visits d p a b b (inr refl) mode _)
          (after_gold-Visits r)

    evaluate_prepared-Visits : Logs (Visits a b) (evaluate_prepared d p sc c mode a b)
    unfolding evaluate_prepared
    evaluate_prepared-Visits =
        Logs-bind Chains-Visits _ _ (run_candidate-Visits d p a b a (inl refl) mode _ _)
          after_candidate-Visits

    unless_failed-Visits :
        (failure : Option SealedScoringResult) (rest : Act d p SealedScoringResult)
        → Logs (Visits a b) rest
        → Logs (Visits a b) (unless_failed d p sc failure rest)
    unless_failed-Visits (some failure) rest h = Logs-pure Chains-Visits _
    unless_failed-Visits none rest h = h

    evaluate-Visits : Logs (Visits a b) (evaluate_with_isolates d p sc c mode a b)
    unfolding evaluate_with_isolates
    evaluate-Visits =
        Logs-bind Chains-Visits _ _ (run_trusted_phase-Visits d p a b a (inl refl) mode _ _)
          (λ first. unless_failed-Visits first _ (
            Logs-bind Chains-Visits _ _ (run_trusted_phase-Visits d p a b b (inr refl) mode _ _)
              (λ second. unless_failed-Visits second _ evaluate_prepared-Visits)))

    cleanup-Visits : Logs (Visits a b) (run_cleanup_pair d p c.cleanup_sql mode a b)
    unfolding run_cleanup_pair
    cleanup-Visits =
        Logs-bind Chains-Visits _ _ (run_trusted_phase-Visits d p a b a (inl refl) mode _ _) (λ _.
          Logs-bind Chains-Visits _ _ (run_trusted_phase-Visits d p a b b (inr refl) mode _ _)
            (λ _. Logs-pure Chains-Visits _))

    -- Whatever the evaluation and the cleanup do, both isolates are wiped and given back.
    pub score_on_isolates-pair :
        (before : List (Call Isolate d.Connection)) (s : State d p)
        → s.calls ≡ acquired b ∷ acquired a ∷ before
        → Session before (score_on_isolates d p sc c mode a b s).1.calls
    unfolding score_on_isolates try_finally
    score_on_isolates-pair before s e =
        let inner = Logs-finally Chains-Visits _ _ evaluate-Visits cleanup-Visits in
        let result =
          λ (ends : (SealedScoringResult × Option SealedScoringResult)
              × Option SealedScoringResult).
            result_or (or_else ends.1 ends.0.1) ends.0.0 in
        rw (pure_tail _ result s) (
          subst (Session before) (sym ((finalize_pair-log mode a b).at _))
            (pair a b (Visits-from e (inner.at s))))
