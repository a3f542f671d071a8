-- ===== src/Transport/Router/Logged.antt =====
-- internal/transport/http/router.go with `loggingMiddleware` in its place, between gin's recovery and
-- the middleware for origins. A panic unwinds past it: the flag beside the world says that there was
-- one.
use oauth2_token_exchange.Common.{
  String, Bool, true, false, Option, none, some, List, ◌==◌, ◌≡◌, refl, ◌∙◌, inl, inr, Bool-cases,
}
use oauth2_token_exchange.Common.Int.{ℤ}
use oauth2_token_exchange.Go.Act.{Act, Reply, returned, failed, panicked, continue}
use oauth2_token_exchange.Go.Strings.{has_prefix}
use oauth2_token_exchange.Go.Time.{Time}
use oauth2_token_exchange.Logger.{Frame, SpanContext, Slog, State}
use oauth2_token_exchange.Transport.Gin.{Incoming, Outgoing, HandlerFunc, new_writer, get_header}
use oauth2_token_exchange.Transport.Cors.{cors_middleware, cors_headers, pat_prefix}
use oauth2_token_exchange.Transport.Logging.{log_answer}
use oauth2_token_exchange.Transport.Logging.Laws.{Ends, after_chain}
use oauth2_token_exchange.Transport.Router.{
  Route, route, recovered, recovering, Handlers, handler_of, redirection, unless_redirected,
  new_router,
}

module _ {S : Type 0} where
  abbrev flag : Bool → Outgoing → Reply Outgoing × S → Reply Outgoing × (Bool × S)
  flag before w (returned out, s) = (returned out, (before, s))
  flag before w (failed e, s) = (returned (recovered w (failed e)), (before, s))
  flag before w (panicked text, s) = (returned (recovered w (panicked text)), (true, s))

  -- A handler whose panic is recovered, and remembered.
  abbrev pub flagging : HandlerFunc S → HandlerFunc (Bool × S)
  flagging handler r w (before, s) = flag before w (handler r w s)

module _ {S : Type 0} (canonical : String → String) (origins : List String) (h : Handlers S) where
  abbrev pub dispatch_flagged : Option Route → HandlerFunc (Bool × S)
  dispatch_flagged to r w =
      cors_middleware canonical origins (flagging (handler_of canonical origins h to)) r w

  flag-reply :
      (w : Outgoing) (x : Reply Outgoing × S) → (flag false w x).0 ≡ returned (recovered w x.0)
  flag-reply w (returned out, s) = refl
  flag-reply w (failed e, s) = refl
  flag-reply w (panicked text, s) = refl

  cors_middleware-flagging :
      (next : HandlerFunc S) (r : Incoming) (w : Outgoing) (s : S)
      → (cors_middleware canonical origins (flagging next) r w (false, s)).0
        ≡ (cors_middleware canonical origins (recovering next) r w s).0
  unfolding cors_middleware
  cors_middleware-flagging next r w s =
      let w' = cors_headers canonical origins (get_header canonical r "Origin") w in
      elim (Bool-cases (has_prefix r.path pat_prefix)) [
        | inl for_pats ↦ elim (Bool-cases (r.method == "OPTIONS")) [
          | inl preflight ↦ rw (for_pats, preflight)
          | inr other ↦ rw (for_pats, other) (flag-reply w' (next r w' s))
        ]
        | inr for_others ↦ rw for_others (flag-reply w (next r w s))
      ]

  -- Two chains with the same reply have it also where a redirect may take their place.
  unless_redirected-reply :
      (o : Option Outgoing) (m n : Act S Outgoing) (s s' : S)
      → (m s).0 ≡ (n s').0
      → (unless_redirected o m s).0 ≡ (unless_redirected o n s').0
  unless_redirected-reply none m n s s' e = e
  unless_redirected-reply (some out) m n s s' e = refl

  module _ (slog : Slog S) (logger : State S) (stack : List Frame) (ctx : SpanContext)
      (since : Time → Time → ℤ) where
    abbrev log_unless : Incoming → Time → Reply Outgoing → Bool → Act S Outgoing
    log_unless r start reply true s = (reply, s)
    log_unless r start reply false s =
        continue reply (log_answer slog logger stack ctx since r start) s

    -- A request that is not redirected.
    abbrev logged : Incoming → Act S Outgoing
    logged r s =
        let (start, s1) = slog.now s in
        let (reply, (unwound, s2)) = dispatch_flagged (route r) r new_writer (false, s1) in
        log_unless r start reply unwound s2

    -- `NewRouter`, its logging included.
    unfoldable pub logged_router : Incoming → Act S Outgoing
    unfolding route cors_middleware
    logged_router r = unless_redirected (redirection canonical origins h (route r) r) (logged r)

    log_unless-reply :
        Ends slog logger stack ctx since
        → (r : Incoming) (start : Time) (reply : Reply Outgoing) (unwound : Bool) (s : S)
        → (log_unless r start reply unwound s).0 ≡ reply
    log_unless-reply ends r start reply true s = refl
    log_unless-reply ends r start reply false s =
        after_chain slog logger stack ctx since ends r start reply s

    -- Every request is answered as `new_router` answers it, if the log lines neither fail nor panic.
    pub logged_router-new_router :
        Ends slog logger stack ctx since
        → (r : Incoming) (s : S)
        → (logged_router r s).0 ≡ (new_router canonical origins h r (slog.now s).1).0
    unfolding logged_router new_router
    logged_router-new_router ends r s =
        unless_redirected-reply (redirection canonical origins h (route r) r) (logged r)
          (cors_middleware canonical origins (recovering (handler_of canonical origins h (route r)))
            r new_writer)
          s (slog.now s).1
          (log_unless-reply ends r _ _ _ _
            ∙ cors_middleware-flagging (handler_of canonical origins h (route r)) r new_writer
                (slog.now s).1)
