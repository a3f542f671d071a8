-- ===== src/Process/Program.antt =====
-- The process of cmd/authz/main.go over the parts that the repository has for it: `MustLoad`,
-- `NewServer` with the tracer that it starts, and `Shutdown` of pkg/otel.
use oauth2_token_exchange.Common.{
  String, Bool, Option, none, some, List, ◌≡◌, ◌⊎◌, inl, inr, refl, ap, ◌∙◌, All,
}
use oauth2_token_exchange.Go.Errors.{GoError}
use oauth2_token_exchange.Go.Act.{Act, Reply, returned, pure, ◌>>=◌}
use oauth2_token_exchange.Go.Exit.{Ending, going, exited}
use oauth2_token_exchange.Go.Map.{StringMap}
use oauth2_token_exchange.Go.Time.{Time}
use oauth2_token_exchange.Otel
use oauth2_token_exchange.Otel.{Floats, Sdk, SdkProvider, Global}
use oauth2_token_exchange.Otel.Laws.{after_shut}
use oauth2_token_exchange.Tracer
use oauth2_token_exchange.Transport.Config.{Config}
use oauth2_token_exchange.Transport.Config.Load.{Settings, must_load}
use oauth2_token_exchange.Transport.Server.{Platform}
use oauth2_token_exchange.Transport.Server.Start.{
  NetHttp, Server, start_tracer, make_server, shutdown,
}
use oauth2_token_exchange.Process.{Event, Parts, main}
use oauth2_token_exchange.Process.Laws.{IsQuiet, IsCalm, main-IsWaitingOrStoppedFrom}

-- The world of the process: the variables of the tracers, and all else.
abbrev pub World : (S E R F : Type 0) → Type 0
World S E R F = Tracer.State E R F × S

-- `otel.Shutdown`, on the variables of pkg/otel
abbrev pub shutdown_otel :
    {S E R F : Type 0}
    → (Time → SdkProvider E R F → Act S (Unit {0}))
    → Time
    → Act (World S E R F) (Unit {0})
shutdown_otel shut deadline (st, s) =
    let (r, (g, s')) = Otel.shutdown (shut deadline) (st.otel, s) in
    (r, (record st { otel = g }, s'))

module _ {S O E R : Type 0} (floats : Floats) (library : Sdk S E R) (range : StringMap → StringMap)
    (shut : Time → SdkProvider E R floats.Float → Act S (Unit {0}))
    (v : Settings (World S E R floats.Float)) (base : Platform (World S E R floats.Float) O)
    (net_http : NetHttp (World S E R floats.Float)) (is_server_closed : GoError → Bool)
    (log_line : String → World S E R floats.Float → World S E R floats.Float) where
  -- The server's platform, with the tracer of pkg/tracer.
  abbrev pub platform : Platform (World S E R floats.Float) O
  platform = record base { init_tracer = start_tracer floats library range }

  abbrev pub serve_and_stop :
      Server (World S E R floats.Float)
      → Act (World S E R floats.Float) (Time → Act (World S E R floats.Float) (Unit {0}))
  serve_and_stop server = pure (λ deadline. shutdown net_http server deadline)

  abbrev pub program : Parts (World S E R floats.Float)
  program = record {
    load = must_load v;
    new_server = λ cfg. make_server platform cfg >>= serve_and_stop;
    shutdown_tracer = shutdown_otel shut;
    is_server_closed = is_server_closed;
    now = base.now;
    log_line = log_line;
  }

  -- The SDK's shutdown sends what is left, without an error.
  abbrev pub Flushes : Type 0
  Flushes = (d : Time) (tp : SdkProvider E R floats.Float) (s : S) → (shut d tp s).0 ≡ returned tt

  -- Log lines and the clock leave the variables of the tracers as they are.
  abbrev pub KeepsTracer : Type 0
  KeepsTracer =
      ((line : String) (w : World S E R floats.Float) → (log_line line w).0 ≡ w.0)
      × ((w : World S E R floats.Float) → (base.now w).1.0 ≡ w.0)

  -- The variables of the tracers without a provider.
  abbrev pub without_provider : Tracer.State E R floats.Float → Tracer.State E R floats.Float
  without_provider st = record st { otel = record st.otel { tracer_provider = none } }

  -- What a shutdown of the provider, if there is one, makes of a world: nothing, or the SDK has shut
  -- that provider down, and the variable is cleared.
  abbrev pub IsShutDown :
      Time
      → Option (SdkProvider E R floats.Float)
      → World S E R floats.Float
      → World S E R floats.Float
      → Type 0
  IsShutDown d none before after = after ≡ before
  IsShutDown d (some tp) before after = after ≡ (without_provider before.0, (shut d tp before.1).1)

  -- The outcome of a call on the variables of pkg/otel, in the world.
  abbrev put_back :
      Tracer.State E R floats.Float
      → Reply (Unit {0}) × (Global E R floats.Float × S)
      → Reply (Unit {0}) × World S E R floats.Float
  put_back st (r, (g, s')) = (r, (record st { otel = g }, s'))

  shutdown_otel_returned :
      Flushes
      → (d : Time) (w : World S E R floats.Float) (o : Option (SdkProvider E R floats.Float))
      → w.0.otel.tracer_provider ≡ o
      → ((shutdown_otel shut d w).0 ≡ returned tt) × IsShutDown d o w (shutdown_otel shut d w).1
  unfolding Otel.shutdown
  shutdown_otel_returned flushes d (st, s) none e =
      let same = ap (λ o. put_back st (Otel.shut_down (shut d) o (st.otel, s))) e in
      (ap (λ x. x.0) same, ap (λ x. x.1) same)
  shutdown_otel_returned flushes d (st, s) (some tp) e =
      let same = ap (λ o. put_back st (Otel.shut_down (shut d) o (st.otel, s))) e in
      let fine =
        ap (λ r. put_back st (after_shut (shut d) r (st.otel, (shut d tp s).1))) (flushes d tp s) in
      (ap (λ x. x.0) (same ∙ fine), ap (λ x. x.1) (same ∙ fine))

  shutdown_otel-IsCalm : Flushes → IsCalm program (shutdown_otel shut)
  shutdown_otel-IsCalm flushes d w text h =
      let fine = (shutdown_otel_returned flushes d w w.0.otel.tracer_provider refl).0 in cc

  module _ (shutdown_server : Time → Act (World S E R floats.Float) (Unit {0})) (cfg : Config)
      (s0 s1 s2 : World S E R floats.Float) (loaded : must_load v s0 ≡ (going cfg, s1))
      (made : (make_server platform cfg >>= serve_and_stop) s1
        ≡ (returned shutdown_server, s2)) where
    -- The provider that was there once the server was made, if any, has been shut down, by the
    -- deadline and after the server; then a last line was logged.
    abbrev pub IsFlushed : World S E R floats.Float → Type 0
    IsFlushed end =
        (d : Time) × (w : World S E R floats.Float) × (line : String) × (last : String)
        × (after : World S E R floats.Float) × IsShutDown d s2.0.otel.tracer_provider
            (log_line line (shutdown_server d w).1) after
        × (end ≡ log_line last after)

    -- How the process stands once the events have come in.
    abbrev pub IsWaitingOrFlushed :
        List Event → Ending (Unit {0}) × World S E R floats.Float → Type 0
    IsWaitingOrFlushed events out =
        (All (IsQuiet program) events × (out.0 ≡ going tt))
        ⊎ ((¬ All (IsQuiet program) events) × (out.0 ≡ exited 0) × IsFlushed out.1)

    -- The process over the parts of the repository, once its settings are loaded and its server,
    -- with the tracer, is made, waits exactly as long as no signal has come in and the server has
    -- not ended with an error other than that it was closed; and otherwise it exits with 0, after
    -- a shutdown of the server and then, by the same deadline, the SDK's shutdown of the provider
    -- of spans that the making of the server has left in the package's variable, if there is one:
    -- the variable is then cleared, and a line is logged. It holds if the shutdown of the server
    -- does not panic, that of the SDK's provider has no error, and log lines, the clock and the
    -- shutdown of the server leave the variables of the tracers alone.
    pub program-IsWaitingOrFlushed :
        IsCalm program shutdown_server
        → Flushes
        → KeepsTracer
        → ((d : Time) (w : World S E R floats.Float) → (shutdown_server d w).1.0 ≡ w.0)
        → (events : List Event) → IsWaitingOrFlushed events (main program events s0)
    program-IsWaitingOrFlushed calm flushes (keeps, keeps_now) stays events =
        elim (main-IsWaitingOrStoppedFrom program shutdown_server cfg s0 s1 s2 loaded made calm
          (shutdown_otel-IsCalm flushes) (λ w. w.0 ≡ s2.0) (λ line w h. keeps line w ∙ h)
          (λ w h. keeps_now w ∙ h) refl events) [
            | inl waits ↦ inl waits
            | inr (loud, (d, w, line, last, same, e)) ↦
                let before = log_line line (shutdown_server d w).1 in
                let kept = keeps line (shutdown_server d w).1 ∙ stays d w ∙ same in
                let (_, done) =
                  shutdown_otel_returned flushes d before s2.0.otel.tracer_provider
                    (ap (λ (st : Tracer.State E R floats.Float). st.otel.tracer_provider) kept) in
                inr (
                  loud,
                  ap (λ (out : Ending (Unit {0}) × World S E R floats.Float). out.0) e,
                  (
                    d,
                    w,
                    line,
                    last,
                    (shutdown_otel shut d before).1,
                    done,
                    ap (λ (out : Ending (Unit {0}) × World S E R floats.Float). out.1) e,
                  ),
                )
          ]
