-- ===== src/Postgres/Run/Drain.antt =====
-- postgres_execution.py: the loop `while cursor.nextset(): pass`.
use omni_benchmark.Prelude.{ℕ, suc, zero, ◌<◌, ◌≡◌, refl, Bool, true, false, arith}
use omni_benchmark.Action.{Result, ok, raise, ◌>>=◌, pure}
use omni_benchmark.Postgres.{Driver, Exception}
use omni_benchmark.Postgres.Run.{drain, drain_all}

module _ (d : Driver) where
  open d use {World, Cursor, nextset, sets_left}

  -- What the loop does, with no bound on its rounds.
  pub data Drains (cur : Cursor) : World → Result Exception (Unit {0}) × World → Type 0 where
    last : {w w' : World} → nextset cur w ≡ (ok false, w') → Drains cur w (ok tt, w')
    failed :
        {w w' : World} (e : Exception) → nextset cur w ≡ (raise e, w') → Drains cur w (raise e, w')
    again :
        {w w' : World} {r : Result Exception (Unit {0}) × World}
        → nextset cur w ≡ (ok true, w')
        → Drains cur w' r
        → Drains cur w r

  -- A driver has finitely many result sets: each that `nextset` reports is one less to come.
  abbrev pub IsFinite : Type 0
  IsFinite =
      (cur : Cursor) (w w' : World)
      → nextset cur w ≡ (ok true, w')
      → sets_left cur w' < sets_left cur w

  drain-step :
      (cur : Cursor) (w : World) (fuel : ℕ) (a : Result Exception Bool) (w' : World)
      → nextset cur w ≡ (a, w')
      → (nextset cur w ≡ (ok true, w') → Drains cur w' (drain d fuel cur w'))
      → Drains cur w (drain d (suc fuel) cur w)
  unfolding drain ◌>>=◌ pure
  drain-step cur w fuel (ok true) w' e k = rw e (again e (k e))
  drain-step cur w fuel (ok false) w' e k = rw e (last e)
  drain-step cur w fuel (raise x) w' e k = rw e (failed x e)

  drain-Drains :
      IsFinite
      → (fuel : ℕ) (cur : Cursor) (w : World) → sets_left cur w < fuel
      → Drains cur w (drain d fuel cur w)
  drain-Drains finite zero cur w h = absurd (omega arith)
  drain-Drains finite (suc fuel) cur w h =
      drain-step cur w fuel (nextset cur w).0 (nextset cur w).1 refl
        (λ e. drain-Drains finite fuel cur _ (omega (arith, finite cur w _ e)))

  -- If each result set that `nextset` reports is one less to come, the loop ends: with no error once
  -- `nextset` reports no more sets, or with the first error of `nextset`.
  pub drain_all-Drains : IsFinite → (cur : Cursor) (w : World) → Drains cur w (drain_all d cur w)
  unfolding drain_all
  drain_all-Drains finite cur w = drain-Drains finite (suc (sets_left cur w)) cur w (omega arith)
