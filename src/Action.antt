-- ===== src/Action.antt =====
-- Python code that changes state and may raise. What was written before a raise stays written, so
-- the state comes back beside the exception too.
pub mod Yields
use omni_benchmark.Prelude.{◌≡◌, refl, Bool, true, false}

pub data Result {ℓ} (E : Type ℓ) (A : Type ℓ) : Type ℓ where
  ok : A → Result E A
  raise : E → Result E A

-- `if test: raise error`, before the rest of a function.
unfoldable pub raise_if {ℓ} : {E A : Type ℓ} → Bool → E → Result E A → Result E A
raise_if true error rest = raise error
raise_if false error rest = rest

pub raise_if_rule {ℓ κ} :
    {E A : Type ℓ} (P : Result E A → Type κ) (t : Bool) (error : E) (rest : Result E A)
    → P (raise error)
    → (t ≡ false → P rest)
    → P (raise_if t error rest)
unfolding raise_if
raise_if_rule P true error rest h k = h
raise_if_rule P false error rest h k = k refl

abbrev pub Action {ℓ} : Type ℓ → Type ℓ → Type ℓ → Type ℓ
Action S E A = S → Result E A × S

module _ {ℓ} {S E A : Type ℓ} where
  unfoldable pub pure : A → Action S E A
  pure a s = (ok a, s)

  unfoldable pub throw : E → Action S E A
  throw e s = (raise e, s)

  unfoldable pub lift : Result E A → Action S E A
  lift r s = (r, s)

  -- Keeps what `m` raised as a value.
  unfoldable pub held : Action S E A → Action S E (Result E A)
  held m s = let (r, s') = m s in (ok r, s')

module _ {ℓ} {S E A B : Type ℓ} where
  abbrev pub and_then : Result E A → (A → Action S E B) → Action S E B
  and_then (ok a) f s = f a s
  and_then (raise e) f s = (raise e, s)

  infixl 5 ◌>>=◌ ◌>>◌
  unfoldable pub ◌>>=◌ : Action S E A → (A → Action S E B) → Action S E B
  unfolding pure throw lift held
  ◌>>=◌ m f s = let (r, s') = m s in and_then r f s'

  abbrev pub ◌>>◌ : Action S E A → Action S E B → Action S E B
  m >> n = m >>= λ _. n

module _ {ℓ} {E A C : Type ℓ} where
  -- An exception of the cleanup takes the place of the body's outcome.
  abbrev pub both : Result E A → Result E C → Result E (A × C)
  both r (raise e) = raise e
  both (raise e) (ok c) = raise e
  both (ok a) (ok c) = ok (a, c)

module _ {ℓ} {S E A C : Type ℓ} where
  -- `try: a = m` / `finally: c = cleanup`; what comes next is reached if neither raised.
  unfoldable pub try_finally : Action S E A → Action S E C → Action S E (A × C)
  unfolding pure throw lift held
  try_finally m cleanup s = let (r, s') = m s in let (c, s'') = cleanup s' in (both r c, s'')

module _ {ℓ} {S E F A B : Type ℓ} where
  abbrev pub settle : Result E A → (A → Action S F B) → (E → Action S F B) → Action S F B
  settle (ok a) f g s = f a s
  settle (raise e) f g s = g e s

  -- `try: a = m` / `except Exception as e: g e` / `else: f a`
  unfoldable pub try_except : Action S E A → (A → Action S F B) → (E → Action S F B) → Action S F B
  unfolding pure throw lift held
  try_except m f g s = let (r, s') = m s in settle r f g s'
