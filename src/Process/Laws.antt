-- ===== src/Process/Laws.antt =====
-- cmd/authz/main.go: when the process ends, and what it does then.
use oauth2_token_exchange.Common.{
  String, ◌<>◌, true, Option, none, some, List, [], ◌∷◌, ◌≡◌, ◌≢◌, ◌⊎◌, refl, ap, subst, sym, ◌∙◌,
  Bool-cases, inl, inr, All,
}
use oauth2_token_exchange.Go.Errors.{error_text}
use oauth2_token_exchange.Go.Act.{Act, Reply, returned, failed, panicked}
use oauth2_token_exchange.Go.Exit.{Ending, going, exited, continue_going, or_exit}
use oauth2_token_exchange.Go.Time.{Time}
use oauth2_token_exchange.Transport.Config.{Config}
use oauth2_token_exchange.Process.{
  Event, signal, listen_ended, Cause, signalled, server_failed, reported, Parts, await, stop,
  stop_tracer, stop_at, wait, announce, starting_line, with_config, run_server, main,
}

module _ {S : Type 0} (p : Parts S) where
  -- An event after which the process waits on: the end of the server without an error, or with the
  -- one that says that it was closed.
  abbrev pub IsQuiet : Event → Type 0
  IsQuiet signal = ⊥
  IsQuiet (listen_ended none) = Unit
  IsQuiet (listen_ended (some e)) = p.is_server_closed e ≡ true

  -- What the events that have come in lead to.
  abbrev IsAwaited : List Event → Option Cause → Type 0
  IsAwaited events none = All IsQuiet events
  IsAwaited events (some cause) = ¬ All IsQuiet events

  quiet-IsAwaited :
      (event : Event) (rest : List Event) (o : Option Cause)
      → IsQuiet event
      → IsAwaited rest o
      → IsAwaited (event ∷ rest) o
  quiet-IsAwaited event rest none quiet awaited = (quiet, awaited)
  quiet-IsAwaited event rest (some cause) quiet awaited = λ all. awaited all.1

  await-IsAwaited : (events : List Event) → IsAwaited events (await p events)
  unfolding await
  await-IsAwaited [] = tt
  await-IsAwaited (signal ∷ rest) = λ all. all.0
  await-IsAwaited (listen_ended none ∷ rest) =
      quiet-IsAwaited (listen_ended none) rest (await p rest) tt (await-IsAwaited rest)
  await-IsAwaited (listen_ended (some e) ∷ rest) = elim (Bool-cases (p.is_server_closed e)) [
    | inl closed ↦
        rw closed (
          quiet-IsAwaited (listen_ended (some e)) rest (await p rest) closed (await-IsAwaited rest))
    | inr open_error ↦ rw open_error (λ all. cc (all.0))
  ]

  -- Both parts are shut down, the server first, with one deadline; then the process exits with 0.
  abbrev pub StopsBy : (Time → Act S (Unit {0})) → Ending (Unit {0}) × S → Type 0
  StopsBy shutdown_server out =
      (deadline : Time) × (a : S) × (line : String) × (last : String) × (out ≡ (
        exited 0,
        p.log_line last
            (p.shutdown_tracer deadline (p.log_line line (shutdown_server deadline a).1)).1,
      ))

  -- The same, where the server is shut down in a world of which something holds.
  abbrev pub StopsFrom : (S → Type 0) → (Time → Act S (Unit {0})) → Ending (Unit {0}) × S → Type 0
  StopsFrom P shutdown_server out =
      (deadline : Time) × (a : S) × (line : String) × (last : String) × P a
      × (out ≡ (
        exited 0,
        p.log_line last
            (p.shutdown_tracer deadline (p.log_line line (shutdown_server deadline a).1)).1,
      ))

  -- No call panics.
  abbrev pub IsCalm : (Time → Act S (Unit {0})) → Type 0
  IsCalm call = (d : Time) (s : S) (text : String) → (call d s).0 ≢ panicked text

  reported_calm :
      (good bad : String) (r : Reply (Unit {0})) (next : S → Ending (Unit {0}) × S) (s : S)
      → ((text : String) → r ≢ panicked text)
      → (line : String) × (reported p good bad r next s ≡ next (p.log_line line s))
  reported_calm good bad (returned done) next s calm = (_, refl)
  reported_calm good bad (failed e) next s calm = (_, refl)
  reported_calm good bad (panicked text) next s calm = absurd (calm text refl)

  module _ (shutdown_server : Time → Act S (Unit {0})) where
    stop_at-StopsFrom :
        (P : S → Type 0)
        → IsCalm shutdown_server
        → IsCalm p.shutdown_tracer
        → (d : Time) (s : S) → P s
        → StopsFrom P shutdown_server (stop_at p shutdown_server d s)
    stop_at-StopsFrom P calm calm_tracer d s holds =
        let after_server = shutdown_server d s in
        let (line, first) =
          reported_calm "Server stopped gracefully" "Server forced to shutdown: " after_server.0
            (stop_tracer p d) after_server.1 (calm d s) in
        let s' = p.log_line line after_server.1 in
        let after_tracer = p.shutdown_tracer d s' in
        let (last, second) =
          reported_calm "Tracer provider stopped gracefully" "Failed to shutdown tracer provider: "
            after_tracer.0 (λ s. (exited 0, s)) after_tracer.1 (calm_tracer d s') in
        (d, s, line, last, holds, first ∙ second)

    module _ (cfg : Config) (s0 s1 s2 : S) (loaded : p.load s0 ≡ (going cfg, s1))
        (made : p.new_server cfg s1 ≡ (returned shutdown_server, s2)) where
      started :
          (events : List Event)
          → main p events s0 ≡ wait p shutdown_server (await p events) (starting_line p cfg s2)
      unfolding main
      started events =
          ap (λ (x : Ending Config × S). continue_going x.0 (with_config p events) x.1) loaded
          ∙ ap
              (λ (x : Reply (Time → Act S (Unit {0})) × S).
                or_exit x.0 (λ e. p.log_line ("Failed to create server: " <> error_text e))
                  (run_server p events cfg) x.1)
              made

      -- How the process stands once the events have come in.
      abbrev pub IsWaitingOrStopped : List Event → Ending (Unit {0}) × S → Type 0
      IsWaitingOrStopped events out =
          (All IsQuiet events × (out.0 ≡ going tt))
          ⊎ ((¬ All IsQuiet events) × StopsBy shutdown_server out)

      abbrev pub IsWaitingOrStoppedFrom : (S → Type 0) → List Event → Ending (Unit {0}) × S → Type 0
      IsWaitingOrStoppedFrom P events out =
          (All IsQuiet events × (out.0 ≡ going tt))
          ⊎ ((¬ All IsQuiet events) × StopsFrom P shutdown_server out)

      forget-StopsFrom :
          (P : S → Type 0) (events : List Event) (out : Ending (Unit {0}) × S)
          → IsWaitingOrStoppedFrom P events out
          → IsWaitingOrStopped events out
      forget-StopsFrom P events out (inl waits) = inl waits
      forget-StopsFrom P events out (inr (loud, (d, a, line, last, holds, e))) =
          inr (loud, (d, a, line, last, e))

      module _ (calm : IsCalm shutdown_server) (calm_tracer : IsCalm p.shutdown_tracer) where
        module _ (P : S → Type 0) (logged : (line : String) (s : S) → P s → P (p.log_line line s))
            (timed : (s : S) → P s → P (p.now s).1) where
          announce-keeps : (cause : Cause) (s : S) → P s → P (announce p cause s)
          announce-keeps signalled s holds = logged _ s holds
          announce-keeps (server_failed e) s holds = logged _ _ (logged _ s holds)

          wait-IsWaitingOrStopped :
              (events : List Event) (o : Option Cause) (s : S)
              → IsAwaited events o
              → P s
              → IsWaitingOrStoppedFrom P events (wait p shutdown_server o s)
          unfolding stop
          wait-IsWaitingOrStopped events none s awaited holds = inl (awaited, refl)
          wait-IsWaitingOrStopped events (some cause) s awaited holds = inr (
            awaited,
            stop_at-StopsFrom P calm calm_tracer _ _ (timed _ (announce-keeps cause s holds)),
          )

          -- What holds once the server is made, and neither log lines nor the clock end, holds when
          -- the server is shut down.
          pub main-IsWaitingOrStoppedFrom :
              P s2 → (events : List Event) → IsWaitingOrStoppedFrom P events (main p events s0)
          main-IsWaitingOrStoppedFrom holds events =
              subst (IsWaitingOrStoppedFrom P events) (sym (started events)) (
                wait-IsWaitingOrStopped events (await p events) _ (await-IsAwaited events)
                  (logged _ s2 holds))

        -- Once the settings are loaded and the server is made, the process waits exactly as long
        -- as no signal has come in and the server has not ended with an error other than that it
        -- was closed; and otherwise it shuts the server down, and then the tracer by the same
        -- deadline, whatever errors they have, and exits with 0. No shutdown panics.
        pub main-IsWaitingOrStopped :
            (events : List Event) → IsWaitingOrStopped events (main p events s0)
        main-IsWaitingOrStopped events =
            forget-StopsFrom (λ _. Unit) events (main p events s0)
              (main-IsWaitingOrStoppedFrom (λ _. Unit) (λ _ _ _. tt) (λ _ _. tt) tt events)
