-- ===== src/Process.antt =====
-- cmd/authz/main.go: the process. Its log lines are kept by a function of the world.
pub mod Laws
pub mod Program
use oauth2_token_exchange.Common.{
  ℕ, String, ◌<>◌, Bool, Option, none, some, List, [], ◌∷◌, if◌then◌else◌,
}
use oauth2_token_exchange.Common.Int.{pos, ◌+ℤ◌}
use oauth2_token_exchange.Go.Errors.{GoError, error_text}
use oauth2_token_exchange.Go.Act.{Act, Reply, returned, failed, panicked}
use oauth2_token_exchange.Go.Exit.{Ending, going, exited, crashed, continue_going, or_exit}
use oauth2_token_exchange.Go.Time.{Time}
use oauth2_token_exchange.Transport.Config.{Config}

-- What comes in while the process waits: an interrupt or a termination by the system, or the end of
-- `ListenAndServe` with its error.
pub data Event : Type 0 where
  signal : Event
  listen_ended : Option GoError → Event

pub data Cause : Type 0 where
  signalled : Cause
  server_failed : GoError → Cause

-- The parts of the process: `NewServer` with the method `Shutdown` of what it makes, and `Shutdown`
-- of pkg/otel; these two are given the deadline of their context. `is_server_closed` is
-- `errors.Is(err, http.ErrServerClosed)`.
pub record Parts (S : Type 0) : Type 0 where
  pub load : S → Ending Config × S
  pub new_server : Config → Act S (Time → Act S (Unit {0}))
  pub shutdown_tracer : Time → Act S (Unit {0})
  pub is_server_closed : GoError → Bool
  pub now : S → Time × S
  pub log_line : String → S → S

abbrev pub shutdown_timeout_seconds : ℕ
shutdown_timeout_seconds = 10

module _ {S : Type 0} (p : Parts S) where
  -- What ends the wait, if anything does. The goroutine passes on the errors of the server only.
  unfoldable pub await : List Event → Option Cause
  await [] = none
  await (signal ∷ rest) = some signalled
  await (listen_ended none ∷ rest) = await rest
  await (listen_ended (some e) ∷ rest) =
      let later = await rest in if p.is_server_closed e then later else some (server_failed e)

  abbrev pub announce : Cause → S → S
  announce signalled s = p.log_line "Shutting down server..." s
  announce (server_failed e) s =
      p.log_line ("Server error, shutting down: " <> error_text e)
        (p.log_line ("Server failed: " <> error_text e) s)

  -- A shutdown whose error is only logged.
  abbrev pub reported :
      String → String → Reply (Unit {0}) → (S → Ending (Unit {0}) × S) → S → Ending (Unit {0}) × S
  reported good bad (returned done) next s = next (p.log_line good s)
  reported good bad (failed e) next s = next (p.log_line (bad <> error_text e) s)
  reported good bad (panicked text) next s = (crashed text, s)

  abbrev stop_tracer : Time → S → Ending (Unit {0}) × S
  stop_tracer deadline s =
      let (r, s') = p.shutdown_tracer deadline s in
      reported "Tracer provider stopped gracefully" "Failed to shutdown tracer provider: " r
        (λ s. (exited 0, s)) s'

  abbrev stop_at : (Time → Act S (Unit {0})) → Time → S → Ending (Unit {0}) × S
  stop_at shutdown_server deadline s =
      let (r, s') = shutdown_server deadline s in
      reported "Server stopped gracefully" "Server forced to shutdown: " r (stop_tracer deadline) s'

  -- The end of `main`: both shutdowns share one deadline.
  unfoldable pub stop : (Time → Act S (Unit {0})) → S → Ending (Unit {0}) × S
  unfolding ◌+ℤ◌
  stop shutdown_server s =
      let (at, s') = p.now s in
      stop_at shutdown_server (record at { sec = at.sec +ℤ pos shutdown_timeout_seconds }) s'

  -- `going tt` is a process that still waits.
  abbrev wait : (Time → Act S (Unit {0})) → Option Cause → S → Ending (Unit {0}) × S
  wait shutdown_server none s = (going tt, s)
  wait shutdown_server (some cause) s = stop shutdown_server (announce cause s)

  abbrev pub starting_line : Config → S → S
  starting_line cfg =
      p.log_line
        ("Starting HTTP server on " <> cfg.server.addr <> " (mode: " <> cfg.server.mode <> ")")

  abbrev run_server : List Event → Config → (Time → Act S (Unit {0})) → S → Ending (Unit {0}) × S
  run_server events cfg shutdown_server s =
      wait shutdown_server (await events) (starting_line cfg s)

  abbrev with_config : List Event → Config → S → Ending (Unit {0}) × S
  with_config events cfg s =
      let (r, s') = p.new_server cfg s in
      or_exit r (λ e. p.log_line ("Failed to create server: " <> error_text e))
        (run_server events cfg) s'

  -- The process, with the events that have come in so far.
  unfoldable pub main : List Event → S → Ending (Unit {0}) × S
  unfolding await stop
  main events s = let (r, s') = p.load s in continue_going r (with_config events) s'
