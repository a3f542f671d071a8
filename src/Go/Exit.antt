-- ===== src/Go/Exit.antt =====
-- How a part of the process ends that may exit: it goes on, exits with a code, or panics.
use oauth2_token_exchange.Common.{ℕ, String}
use oauth2_token_exchange.Go.Act.{Reply, returned, failed, panicked}
use oauth2_token_exchange.Go.Errors.{GoError}

pub data Ending {ℓ} (A : Type ℓ) : Type ℓ where
  going : A → Ending A
  exited : ℕ → Ending A
  crashed : String → Ending A

module _ {S A B : Type 0} where
  abbrev pub continue_going : Ending A → (A → S → Ending B × S) → S → Ending B × S
  continue_going (going a) f s = f a s
  continue_going (exited code) f s = (exited code, s)
  continue_going (crashed text) f s = (crashed text, s)

  -- `a, err := m(); if err != nil { report(err); os.Exit(1) }`, by the outcome of the call.
  abbrev pub or_exit : Reply A → (GoError → S → S) → (A → S → Ending B × S) → S → Ending B × S
  or_exit (returned a) report f s = f a s
  or_exit (failed e) report f s = (exited 1, report e s)
  or_exit (panicked text) report f s = (crashed text, s)
