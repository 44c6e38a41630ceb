-- ===== src/Sync/Facade.antt =====
-- The calls that `ILogger` of include/vosp/logger.hpp builds on `write`.
use micro_error_framework.Prelude.{◌≡◌, refl, Bool, true, arith, if◌then◌else◌}
use micro_error_framework.Error.{
  Error, Result, ok, err, Outcome, returned, threw_exception, threw_unknown, attempt,
}
use micro_error_framework.Logger.{Level}

-- Over the virtual functions: `write` on a world, and `write_owned` on one.
module _ {W : Type 0} (write write_owned : W → Level → Error → W × Outcome Bool) where
  -- `publish`, for an lvalue (`owned` false) or an rvalue.
  unfoldable pub publish : W → Level → Error → Bool → W × Outcome Bool
  publish w level e owned = if owned then write_owned w level e else write w level e

  -- One call for each level.
  unfoldable pub trace : W → Error → Bool → W × Outcome Bool
  unfolding publish
  trace w e owned = publish w Level.trace e owned

  unfoldable pub debug : W → Error → Bool → W × Outcome Bool
  unfolding publish
  debug w e owned = publish w Level.debug e owned

  unfoldable pub info : W → Error → Bool → W × Outcome Bool
  unfolding publish
  info w e owned = publish w Level.info e owned

  unfoldable pub warning : W → Error → Bool → W × Outcome Bool
  unfolding publish
  warning w e owned = publish w Level.warning e owned

  unfoldable pub error : W → Error → Bool → W × Outcome Bool
  unfolding publish
  error w e owned = publish w Level.error e owned

  unfoldable pub critical : W → Error → Bool → W × Outcome Bool
  unfolding publish
  critical w e owned = publish w Level.critical e owned

  -- `error(const Result<Value>&)`
  unfoldable pub error_result {ℓ} : {A : Type ℓ} → W → Result A → W × Outcome Bool
  error_result w (ok a) = (w, returned true)
  error_result w (err e) = write w Level.error e

  -- `try { static_cast<void>(write(level, error)); } catch (...) {}`
  unfoldable pub write_best_effort : W → Level → Error → W × Outcome (Unit {0})
  write_best_effort w level e =
      let (w', reply) = write w level e in
      (
        w',
        elim reply [
          | returned accepted ↦ returned tt
          | threw_exception what ↦ returned tt
          | threw_unknown ↦ returned tt
        ],
      )

  -- `capture`, which itself may return or throw
  unfoldable pub capture {ℓ} : {A : Type ℓ} → W → Error → Outcome A → Level → W × Outcome (Result A)
  unfolding attempt write_best_effort
  capture w failure invocation level =
      let result = attempt failure invocation in
      elim result [
        | ok a ↦ (w, returned (ok a))
        | err e ↦
            (let (w', tried) = write_best_effort w level e in
              (
                w',
                elim tried [
                  | returned u ↦ returned (err e)
                  | threw_exception what ↦ threw_exception what
                  | threw_unknown ↦ threw_unknown
                ],
              ))
      ]

  -- What is left of the world: untouched by a value, and as the write of an error leaves it.
  abbrev pub world_after {ℓ} : {A : Type ℓ} → W → Level → Result A → W
  world_after w level (ok a) = w
  world_after w level (err e) = (write w level e).0

  -- Whatever the logger answers or throws, `capture` returns what `attempt` gives.
  pub capture-returned {ℓ} :
      {A : Type ℓ} (w : W) (failure : Error) (invocation : Outcome A) (level : Level)
      → capture w failure invocation level
        ≡ (world_after w level (attempt failure invocation), returned (attempt failure invocation))
  unfolding capture write_best_effort attempt
  capture-returned w failure (returned a) level = refl
  capture-returned w failure (threw_exception what) level = ground arith
  capture-returned w failure threw_unknown level = ground arith
