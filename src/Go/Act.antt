-- ===== src/Go/Act.antt =====
-- Go functions that act on the world: Redis, ZITADEL and the clock, whose joint state is `S`.
-- A call returns a value, fails with a non-nil error, or panics; the world has moved on in each case.
pub mod Laws
use oauth2_token_exchange.Common.{◌≡◌, refl, Bool, String, if◌then◌else◌}
use oauth2_token_exchange.Go.Errors.{GoError, wrapped, Result, ok, err}

pub data Reply {ℓ} (A : Type ℓ) : Type ℓ where
  returned : A → Reply A
  failed : GoError → Reply A
  panicked : String → Reply A

abbrev pub Act {ℓ} : Type 0 → Type ℓ → Type ℓ
Act S A = S → Reply A × S

module _ {ℓ} {A : Type ℓ} where
  -- `return nil, fmt.Errorf("prefix: %w", err)` for an error of the call.
  abbrev pub wrap_reply : String → Reply A → Reply A
  wrap_reply prefix (returned a) = returned a
  wrap_reply prefix (failed e) = failed (wrapped prefix e)
  wrap_reply prefix (panicked text) = panicked text

  abbrev pub attempt_reply : Reply A → Reply (Result A)
  attempt_reply (returned a) = returned (ok a)
  attempt_reply (failed e) = returned (err e)
  attempt_reply (panicked text) = panicked text

module _ {ℓ} {S : Type 0} {A : Type ℓ} where
  abbrev pub pure : A → Act S A
  pure a s = (returned a, s)

  -- `return nil, err`
  abbrev pub fail : GoError → Act S A
  fail e s = (failed e, s)

  abbrev pub panic : String → Act S A
  panic text s = (panicked text, s)

  abbrev pub lift : Result A → Act S A
  lift (ok a) s = (returned a, s)
  lift (err e) s = (failed e, s)

  abbrev pub wrapping : String → Act S A → Act S A
  wrapping prefix m s = let (r, s') = m s in (wrap_reply prefix r, s')

module _ {ℓ κ} {S : Type 0} {A : Type ℓ} {B : Type κ} where
  abbrev pub continue : Reply A → (A → Act S B) → Act S B
  continue (returned a) f s = f a s
  continue (failed e) f s = (failed e, s)
  continue (panicked text) f s = (panicked text, s)

  infixl 10 ◌>>=◌ ◌>>◌
  -- `a, err := m(); if err != nil { return nil, err }`
  abbrev pub ◌>>=◌ : Act S A → (A → Act S B) → Act S B
  ◌>>=◌ m f s = let (r, s') = m s in continue r f s'

  abbrev pub ◌>>◌ : Act S A → Act S B → Act S B
  m >> n = m >>= λ _. n

module _ {ℓ} {S : Type 0} {A : Type ℓ} where
  -- `a, err := m()`, where the caller looks at the error itself.
  abbrev pub attempt : Act S A → Act S (Result A)
  attempt m s = let (r, s') = m s in (attempt_reply r, s')

module _ {S : Type 0} where
  -- `if test { return nil, err }`
  abbrev pub refuse_if : Bool → GoError → Act S (Unit {0})
  refuse_if test e s = if test then (failed e, s) else (returned tt, s)
