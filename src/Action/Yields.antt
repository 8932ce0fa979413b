-- ===== src/Action/Yields.antt =====
-- What an action answers, whatever the state: a predicate on the values that it returns and one on
-- the exceptions that it raises, with a rule for each way to build an action.
use omni_benchmark.Action.{
  both, try_finally, Result, ok, raise, Action, pure, throw, lift, held, ◌>>=◌, try_except,
  and_then, settle,
}
use omni_benchmark.Prelude.{Bool, true, false, if◌then◌else◌}

abbrev pub Holds {ℓ} : {E A : Type ℓ} → (A → Type ℓ) → (E → Type ℓ) → Result E A → Type ℓ
Holds P Q (ok a) = P a
Holds P Q (raise e) = Q e

pub Holds-if {ℓ} :
    {E A : Type ℓ} (P : A → Type ℓ) (Q : E → Type ℓ) (b : Bool) (x y : Result E A)
    → Holds P Q x
    → Holds P Q y
    → Holds P Q (if b then x else y)
Holds-if P Q true x y hx hy = hx
Holds-if P Q false x y hx hy = hy

pub record Yields {ℓ} {S E A : Type ℓ} (P : A → Type ℓ) (Q : E → Type ℓ) (m : Action S E A)
    : Type ℓ where
  pub at : (s : S) → Holds P Q (m s).0

module _ {ℓ} {S E A : Type ℓ} {P : A → Type ℓ} {Q : E → Type ℓ} where
  pub Yields-pure : (a : A) → P a → Yields P Q (pure {S = S} a)
  unfolding pure
  Yields-pure a h = record { at = λ s. h }

  pub Yields-throw : (e : E) → Q e → Yields P Q (throw {S = S} e)
  unfolding throw
  Yields-throw e h = record { at = λ s. h }

  pub Yields-lift : (r : Result E A) → Holds P Q r → Yields P Q (lift {S = S} r)
  unfolding lift
  Yields-lift r h = record { at = λ s. h }

  pub Yields-held : (m : Action S E A) → Yields P Q m → Yields (Holds P Q) Q (held m)
  unfolding held
  Yields-held m h = record { at = λ s. h.at s }

  pub Yields-if :
      (b : Bool) (m n : Action S E A)
      → Yields P Q m
      → Yields P Q n
      → Yields P Q (if b then m else n)
  Yields-if true m n hm hn = hm
  Yields-if false m n hm hn = hn

module _ {ℓ} {S E F A B : Type ℓ} {P : A → Type ℓ} {Q : E → Type ℓ} {R : B → Type ℓ}
    {T : F → Type ℓ} where
  pub Yields-settle :
      (r : Result E A) (f : A → Action S F B) (g : E → Action S F B)
      → Holds P Q r
      → ((a : A) → P a → Yields R T (f a))
      → ((e : E) → Q e → Yields R T (g e))
      → (s : S) → Holds R T (settle r f g s).0
  Yields-settle (ok a) f g h hf hg s = (hf a h).at s
  Yields-settle (raise e) f g h hf hg s = (hg e h).at s

  pub Yields-try :
      (m : Action S E A) (f : A → Action S F B) (g : E → Action S F B)
      → Yields P Q m
      → ((a : A) → P a → Yields R T (f a))
      → ((e : E) → Q e → Yields R T (g e))
      → Yields R T (try_except m f g)
  unfolding try_except
  Yields-try m f g hm hf hg = record {
    at = λ s. let (r, s') = m s in Yields-settle r f g (hm.at s) hf hg s';
  }

module _ {ℓ} {S E A B : Type ℓ} {P : A → Type ℓ} {Q : E → Type ℓ} {R : B → Type ℓ} where
  pub Yields-and_then :
      (r : Result E A) (f : A → Action S E B)
      → Holds P Q r
      → ((a : A) → P a → Yields R Q (f a))
      → (s : S) → Holds R Q (and_then r f s).0
  Yields-and_then (ok a) f h hf s = (hf a h).at s
  Yields-and_then (raise e) f h hf s = h

  pub Yields-bind :
      (m : Action S E A) (f : A → Action S E B)
      → Yields P Q m
      → ((a : A) → P a → Yields R Q (f a))
      → Yields R Q (m >>= f)
  unfolding ◌>>=◌
  Yields-bind m f hm hf = record {
    at = λ s. let (r, s') = m s in Yields-and_then r f (hm.at s) hf s';
  }

module _ {ℓ} {E A C : Type ℓ} (P : A → Type ℓ) (R : C → Type ℓ) (Q : E → Type ℓ) where
  Holds-both :
      (r : Result E A) (c : Result E C)
      → Holds P Q r
      → Holds R Q c
      → Holds (λ ends. P ends.0 × R ends.1) Q (both r c)
  Holds-both (ok a) (ok c) h k = (h, k)
  Holds-both (raise e) (ok c) h k = h
  Holds-both (ok a) (raise e) h k = k
  Holds-both (raise e) (raise f) h k = k

module _ {ℓ} {S E A C : Type ℓ} {P : A → Type ℓ} {R : C → Type ℓ} {Q : E → Type ℓ} where
  pub Yields-finally :
      (m : Action S E A) (cleanup : Action S E C)
      → Yields P Q m
      → Yields R Q cleanup
      → Yields (λ ends. P ends.0 × R ends.1) Q (try_finally m cleanup)
  unfolding try_finally
  Yields-finally m cleanup h k = record {
    at = λ s.
        let (r, s') = m s in let (c, s'') = cleanup s' in Holds-both P R Q r c (h.at s) (k.at s');
  }

abbrev pub Anything {ℓ} : {A : Type ℓ} → A → Type ℓ
Anything a = Unit

Holds-any {ℓ} : {E A : Type ℓ} (r : Result E A) → Holds Anything Anything r
Holds-any (ok a) = tt
Holds-any (raise e) = tt

-- Nothing is known of what a primitive answers.
pub Yields-any {ℓ} : {S E A : Type ℓ} (m : Action S E A) → Yields Anything Anything m
Yields-any m = record { at = λ s. Holds-any (m s).0 }

module _ {ℓ} {E A : Type ℓ} {P P' : A → Type ℓ} {Q Q' : E → Type ℓ} where
  pub Holds-weaken :
      (r : Result E A)
      → Holds P Q r
      → ((a : A) → P a → P' a)
      → ((e : E) → Q e → Q' e)
      → Holds P' Q' r
  Holds-weaken (ok a) h f g = f a h
  Holds-weaken (raise e) h f g = g e h

  pub Yields-weaken :
      {S : Type ℓ} (m : Action S E A)
      → Yields P Q m
      → ((a : A) → P a → P' a)
      → ((e : E) → Q e → Q' e)
      → Yields P' Q' m
  Yields-weaken m h f g = record { at = λ s. Holds-weaken (m s).0 (h.at s) f g }

pub ruleset yields_rules =
    (Yields-pure, Yields-throw, Yields-lift, Yields-held, Yields-if, Yields-bind, Yields-try)
