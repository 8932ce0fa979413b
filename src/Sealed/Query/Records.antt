-- ===== src/Sealed/Query/Records.antt =====
-- sealed_scoring.py: which results `as_score_record` makes a score record of.
use omni_benchmark.Sealed.{
  FailureOrigin, refused_or_error, wrong_answer, ScoringMode, correct, ScoreRecord, Scorers,
  FailureClass, Provider, benchmark_infrastructure, score_record, Outcome, SealedScoringResult,
  as_score_record,
}
use omni_benchmark.Sealed.Query.Verdicts.{score_query-IsLabelled}
use omni_benchmark.Sealed.Query.{score_query}
use omni_benchmark.Sealed.Query.Labels.{judged, owned, blameless, IsExpected, Label}
use omni_benchmark.Action.Yields.{Yields, Yields-weaken}
use omni_benchmark.Sealed.Compare.{Case}
use omni_benchmark.Postgres.{Driver}
use omni_benchmark.Prelude.{◌≡◌, ◌≢◌, refl, Bool, true, Option, none, some, String}

abbrev recorded_as : String → Outcome → Option FailureClass → Option ScoreRecord
recorded_as i o f = some (record { attempt_id = i; outcome = o; failure_category = f })

-- A failure of the infrastructure leaves no record, a result that may be run again is one of them,
-- and every other result is recorded whole.
pub record IsRecorded (r : SealedScoringResult) : Type 0 where
  pub withheld :
      r.failure_origin ≡ some benchmark_infrastructure → (i : String) → as_score_record r i ≡ none
  pub rerun : r.rerun_eligible ≡ true → (i : String) → as_score_record r i ≡ none
  pub recorded :
      r.failure_origin ≢ some benchmark_infrastructure
      → (i : String)
      → (o : Outcome) × (r.outcome ≡ some o)
        × (as_score_record r i ≡ recorded_as i o r.failure_class)

recorded_judged : (i : String) (o : Outcome) → score_record i (some o) none ≡ recorded_as i o none
unfolding score_record
recorded_judged i correct = refl
recorded_judged i wrong_answer = refl
recorded_judged i refused_or_error = refl

record Fits (o : Option Outcome) (g : Option FailureOrigin) (f : Option FailureClass) (b : Bool)
    : Type 0 where
  blocked : g ≡ some benchmark_infrastructure → (i : String) → score_record i o f ≡ none
  waiting : b ≡ true → (i : String) → score_record i o f ≡ none
  written :
      g ≢ some benchmark_infrastructure
      → (i : String) → (a : Outcome) × (o ≡ some a) × (score_record i o f ≡ recorded_as i a f)

Label-Fits :
    {o : Option Outcome} {g : Option FailureOrigin} {f : Option FailureClass} {b : Bool}
    → Label o g f b
    → Fits o g f b
unfolding score_record
Label-Fits (judged o h) = record {
  blocked = λ e i. cc;
  waiting = λ e i. cc;
  written = λ e i. (o, refl, recorded_judged i o);
}
Label-Fits (owned f h) = record {
  blocked = λ e i. cc;
  waiting = λ e i. cc;
  written = λ e i. (refused_or_error, refl, refl);
}
Label-Fits (blameless f b h k) = record {
  blocked = λ e i. refl;
  waiting = λ e i. refl;
  written = λ e i. absurd (e refl);
}

record_of :
    (r : SealedScoringResult)
    → Label r.outcome r.failure_origin r.failure_class r.rerun_eligible
    → IsRecorded r
unfolding as_score_record
record_of r l =
    let fits = Label-Fits l in
    record { withheld = fits.blocked; rerun = fits.waiting; recorded = fits.written }

module _ (d : Driver) (p : Provider d) (sc : Scorers d.Cell) where
  -- Of what a scoring returns, a failure of the infrastructure makes no score record, nor does a
  -- result that is eligible for another run; any other result makes a record with its outcome and
  -- its failure class.
  pub score_query-IsRecorded :
      (mode : ScoringMode) (c : Case d sc)
      → Yields IsRecorded (IsExpected mode) (score_query d p sc c mode)
  score_query-IsRecorded mode c =
      Yields-weaken _ (score_query-IsLabelled d p sc mode c) (λ r h. record_of r h.label) (λ e h. h)
