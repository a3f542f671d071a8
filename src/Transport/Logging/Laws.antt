-- ===== src/Transport/Logging/Laws.antt =====
-- What `loggingMiddleware` of internal/transport/http/middleware.go does to the answer, and what it
-- writes.
use oauth2_token_exchange.Common.{
  ℕ, String, List, [], ◌∷◌, ◌≡◌, ◌≢◌, inl, inr, refl, ap, ◌∙◌, ◌==◌, eq_iff, Bool-cases, leb,
  if◌then◌else◌,
}
use oauth2_token_exchange.Common.Int.{ℤ}
use oauth2_token_exchange.Go.Act.{Act, Reply, returned, failed, panicked, continue, ◌>>=◌, pure}
use oauth2_token_exchange.Go.Time.{Time}
use oauth2_token_exchange.Logger.{
  Level, info, error, text, int, duration, Attr, Frame, SpanContext, Slog, State, info_context,
  error_context,
}
use oauth2_token_exchange.Logger.Laws.{log_context}
use oauth2_token_exchange.Transport.Gin.{Incoming, Outgoing, HandlerFunc}
use oauth2_token_exchange.Transport.Logging.{
  log_answer, healthz_path, min_server_error_status, request_attrs, log_request, logging_middleware,
}

module _ {S : Type 0} (slog : Slog S) (logger : State S) (stack : List Frame) (ctx : SpanContext)
    (since : Time → Time → ℤ) where
  -- A log line comes to an end: it neither fails nor panics.
  abbrev pub Ends : Type 0
  Ends =
      (l : Level) (msg : String) (attrs : List Attr) (s : S)
      → (log_context slog logger stack ctx l msg attrs s).0 ≡ returned tt

  -- The level and the text of the line for a status.
  abbrev pub level_of : ℕ → Level
  level_of status = if leb min_server_error_status status then error else info

  abbrev pub msg_of : ℕ → String
  msg_of status =
      if leb min_server_error_status status then "request failed" else "request completed"

  log_request_written :
      (r : Incoming) (status : ℕ) (took : ℤ) (s : S)
      → r.path ≢ healthz_path
      → log_request slog logger stack ctx since r status took s
        ≡ log_context slog logger stack ctx
            (level_of status)
            (msg_of status)
            (request_attrs slog logger stack ctx since r status took)
            s
  unfolding log_request info_context error_context
  log_request_written r status took s visible = elim (Bool-cases (r.path == healthz_path)) [
    | inl same ↦ absurd (visible ((eq_iff _ _).0 same))
    | inr differs ↦ elim (Bool-cases (leb min_server_error_status status)) [
      | inl bad ↦ rw (differs, bad)
      | inr good ↦ rw (differs, good)
    ]
  ]

  log_request_returned :
      Ends
      → (r : Incoming) (status : ℕ) (took : ℤ) (s : S)
      → (log_request slog logger stack ctx since r status took s).0 ≡ returned tt
  unfolding log_request
  log_request_returned ends r status took s = elim (Bool-cases (r.path == healthz_path)) [
    | inl same ↦ rw same
    | inr differs ↦ elim (Bool-cases (leb min_server_error_status status)) [
      | inl bad ↦ rw (differs, bad) (ends error _ _ s)
      | inr good ↦ rw (differs, good) (ends info _ _ s)
    ]
  ]

  -- What is done after an action that returns.
  continue-returned :
      {A B : Type 0} (m : Act S A) (f : A → Act S B) (a : A) (s : S)
      → (m s).0 ≡ returned a
      → (m >>= f) s ≡ f a (m s).1
  continue-returned m f a s e = ap (λ (x : Reply _). continue x f (m s).1) e

  -- What the middleware does with the outcome of the chain.
  chain :
      (next : HandlerFunc S) (r : Incoming) (w : Outgoing) (s : S) (o : Reply Outgoing × S)
      → next r w (slog.now s).1 ≡ o
      → logging_middleware slog logger stack ctx since next r w s
        ≡ continue o.0 (log_answer slog logger stack ctx since r (slog.now s).0) o.1
  unfolding logging_middleware
  chain next r w s o e =
      ap
        (λ (x : Reply Outgoing × S).
          continue x.0 (log_answer slog logger stack ctx since r (slog.now s).0) x.1)
        e

  -- A request that is not for the path /healthz and whose chain answers has that very answer, and
  -- one line is written for it, with the attributes method, path, status and duration: as an
  -- error, "request failed", from status 500 on, and else as information, "request completed". No
  -- log line fails or panics.
  pub logging_middleware_visible :
      (next : HandlerFunc S) (r : Incoming) (w out : Outgoing) (s s2 : S)
      → Ends
      → r.path ≢ "/healthz"
      → next r w (slog.now s).1 ≡ (returned out, s2)
      → logging_middleware slog logger stack ctx since next r w s ≡ (
        returned out,
        (log_context slog logger stack ctx
            (if leb 500 out.status then error else info)
            (if leb 500 out.status then "request failed" else "request completed")
            (record { key = "method"; value = text r.method }
              ∷ record { key = "path"; value = text r.path }
              ∷ record { key = "status"; value = int out.status }
              ∷ record { key = "duration"; value = duration (since (slog.now s).0 (slog.now s2).0) }
              ∷ [])
            (slog.now s2).1).1,
      )
  unfolding logging_middleware
  logging_middleware_visible next r w out s s2 ends visible e =
      let line =
        log_request slog logger stack ctx since r out.status
          (since (slog.now s).0 (slog.now s2).0) in
      chain next r w s (returned out, s2) e
      ∙ continue-returned line (λ _. pure out) tt (slog.now s2).1
          (log_request_returned ends r out.status _ _)
      ∙ ap (λ (x : Reply (Unit {0}) × S). (returned out, x.1))
          (log_request_written r out.status _ (slog.now s2).1 visible)

  pub after_chain :
      Ends
      → (r : Incoming) (start : Time) (reply : Reply Outgoing) (s : S)
      → (continue reply (log_answer slog logger stack ctx since r start) s).0 ≡ reply
  after_chain ends r start (returned out) s =
      let line =
        log_request slog logger stack ctx since r out.status (since start (slog.now s).0) in
      ap (λ (x : Reply Outgoing × S). x.0)
        (continue-returned line (λ _. pure out) tt (slog.now s).1
          (log_request_returned ends r out.status _ _))
  after_chain ends r start (failed e) s = refl
  after_chain ends r start (panicked why) s = refl

  -- The answer is that of the chain behind it, an error or a panic included.
  pub logging_middleware-reply :
      (next : HandlerFunc S) (r : Incoming) (w : Outgoing) (s : S)
      → Ends
      → (logging_middleware slog logger stack ctx since next r w s).0 ≡ (next r w (slog.now s).1).0
  unfolding logging_middleware
  logging_middleware-reply next r w s ends = after_chain ends r _ _ _

  -- No line is written for a request whose handler panics.
  pub logging_middleware_panicked :
      (next : HandlerFunc S) (r : Incoming) (w : Outgoing) (s s2 : S) (why : String)
      → next r w (slog.now s).1 ≡ (panicked why, s2)
      → logging_middleware slog logger stack ctx since next r w s ≡ (panicked why, s2)
  logging_middleware_panicked next r w s s2 why e = chain next r w s (panicked why, s2) e
