-- ===== src/Sealed/Protocol.antt =====
-- How the evaluator is to use a provider, as a language of logs (the latest call first): a session
-- visits its isolates one connection at a time, and ends by wiping and giving back each of them.
use omni_benchmark.Prelude.{Bool, true, false, if◌then◌else◌, Bool, ◌∙◌, ◌≡◌, refl, List, ◌∷◌}
use mathlib.Core.Logic.{◌⊎◌}
use omni_benchmark.Action.{
  Result, ok, raise, Action, pure, throw, lift, ◌>>=◌, try_except, try_finally, and_then, settle,
}
use omni_benchmark.Postgres.{Driver}
use omni_benchmark.Sealed.{Call, acquired, opened, closed, reset, released, Provider}
use omni_benchmark.Sealed.Calls.{State}

abbrev pub Log : Type 0 → Type 0 → Type 0
Log I C = List (Call I C)

module _ {I C : Type 0} where
  -- Connections to `a` or `b`, each closed before the next call.
  pub data Visits (a b : I) (before : Log I C) : Log I C → Type 0 where
    stay : Visits a b before before
    visit :
        {now : Log I C} (i : I) (c : C)
        → (i ≡ a) ⊎ (i ≡ b)
        → Visits a b before now
        → Visits a b before (closed c ∷ opened i c ∷ now)

  -- No isolate, one isolate, or two, and all of them wiped and given back at the end.
  pub data Session (before : Log I C) : Log I C → Type 0 where
    untouched : Session before before
    single :
        {now : Log I C} (a : I)
        → Visits a a (acquired a ∷ before) now
        → Session before (released a ∷ reset a ∷ now)
    pair :
        {now : Log I C} (a b : I)
        → Visits a b (acquired b ∷ acquired a ∷ before) now
        → Session before (released b ∷ reset b ∷ released a ∷ reset a ∷ now)

  pub Visits-trans : {a b : I} {l m n : Log I C} → Visits a b l m → Visits a b m n → Visits a b l n
  Visits-trans v stay = v
  Visits-trans v (visit i c h w) = visit i c h (Visits-trans v w)

  pub Visits-from : {a b : I} {l m n : Log I C} → l ≡ m → Visits a b l n → Visits a b m n
  Visits-from {a} {b} {n = n} e v = rw (← e) v

-- `m` takes the log of calls from one to another that `R` relates, whatever it answers.
pub record Logs {d : Driver} {p : Provider d} {E A : Type 0}
    (R : Log p.Isolate d.Connection → Log p.Isolate d.Connection → Type 0)
    (m : Action (State d p) E A) : Type 0 where
  pub at : (s : State d p) → R s.calls (m s).1.calls

module _ {d : Driver} {p : Provider d} {E A : Type 0}
    {R : Log p.Isolate d.Connection → Log p.Isolate d.Connection → Type 0} where
  pub Logs-if :
      (b : Bool) (m n : Action (State d p) E A) → Logs R m → Logs R n → Logs R (if b then m else n)
  Logs-if true m n hm hn = hm
  Logs-if false m n hm hn = hn

-- Relations that an idle action meets, and a chain of actions.
pub record Chains {A : Type 0} (R : A → A → Type 0) : Type 0 where
  pub idle : (a : A) → R a a
  pub chain : {a b c : A} → R a b → R b c → R a c

module _ {d : Driver} {p : Provider d}
    {R : Log p.Isolate d.Connection → Log p.Isolate d.Connection → Type 0} (ch : Chains R) where
  module _ {E A : Type 0} where
    pub Logs-pure : (a : A) → Logs R (pure {S = State d p} {E = E} a)
    unfolding pure
    Logs-pure a = record { at = λ s. ch.idle s.calls }

    pub Logs-throw : (e : E) → Logs R (throw {S = State d p} {A = A} e)
    unfolding throw
    Logs-throw e = record { at = λ s. ch.idle s.calls }

    pub Logs-lift : (r : Result E A) → Logs R (lift {S = State d p} r)
    unfolding lift
    Logs-lift r = record { at = λ s. ch.idle s.calls }

  module _ {E F A B : Type 0} where
    Logs-settle :
        (r : Result E A) (f : A → Action (State d p) F B) (g : E → Action (State d p) F B)
        → ((a : A) → Logs R (f a))
        → ((e : E) → Logs R (g e))
        → Logs R (settle r f g)
    Logs-settle (ok a) f g hf hg = hf a
    Logs-settle (raise e) f g hf hg = hg e

    pub Logs-try :
        (m : Action (State d p) E A) (f : A → Action (State d p) F B)
        (g : E → Action (State d p) F B)
        → Logs R m
        → ((a : A) → Logs R (f a))
        → ((e : E) → Logs R (g e))
        → Logs R (try_except m f g)
    unfolding try_except
    Logs-try m f g hm hf hg = record {
      at = λ s. let (r, s') = m s in ch.chain (hm.at s) ((Logs-settle r f g hf hg).at s');
    }

  module _ {E A B : Type 0} where
    Logs-and_then :
        (r : Result E A) (f : A → Action (State d p) E B)
        → ((a : A) → Logs R (f a))
        → Logs R (and_then r f)
    Logs-and_then (ok a) f h = h a
    Logs-and_then (raise e) f h = record { at = λ s. ch.idle s.calls }

    pub Logs-bind :
        (m : Action (State d p) E A) (f : A → Action (State d p) E B)
        → Logs R m
        → ((a : A) → Logs R (f a))
        → Logs R (m >>= f)
    unfolding ◌>>=◌
    Logs-bind m f hm hf = record {
      at = λ s. let (r, s') = m s in ch.chain (hm.at s) ((Logs-and_then r f hf).at s');
    }

    pub Logs-finally :
        (m : Action (State d p) E A) (cleanup : Action (State d p) E B)
        → Logs R m
        → Logs R cleanup
        → Logs R (try_finally m cleanup)
    unfolding try_finally
    Logs-finally m cleanup hm hc = record {
      at = λ s. let (r, s') = m s in ch.chain (hm.at s) (hc.at s');
    }

pub Chains-Visits : {I C : Type 0} {a b : I} → Chains (Visits {C = C} a b)
Chains-Visits = record { idle = λ l. stay; chain = Visits-trans }

-- The log is left alone.
abbrev pub Same : {A : Type 0} → A → A → Type 0
Same l l' = l' ≡ l

pub Chains-Same : {A : Type 0} → Chains (Same {A = A})
Chains-Same = record { idle = λ l. refl; chain = λ h k. k ∙ h }
