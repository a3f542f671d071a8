-- ===== src/Transport/Logging.antt =====
-- `loggingMiddleware` of internal/transport/http/middleware.go.
pub mod Laws
use oauth2_token_exchange.Common.{ℕ, String, List, [], ◌∷◌, ◌==◌, leb, if◌then◌else◌}
use oauth2_token_exchange.Common.Int.{ℤ}
use oauth2_token_exchange.Go.Act.{Act, pure, attempt, ◌>>=◌, ◌>>◌}
use oauth2_token_exchange.Go.Time.{Time}
use oauth2_token_exchange.Logger.{
  Attr, text, int, duration, Frame, SpanContext, Slog, State, info_context, error_context,
}
use oauth2_token_exchange.Transport.Gin.{Incoming, Outgoing, HandlerFunc}

abbrev pub min_server_error_status : ℕ
min_server_error_status = 500

abbrev pub healthz_path : String
healthz_path = "/healthz"

abbrev pub clock : {S : Type 0} → Slog S → Act S Time
clock slog s = let (t, s') = slog.now s in pure t s'

-- The logger, the stack at the middleware, the request's span, and `time.Since` by its two times.
module _ {S : Type 0} (slog : Slog S) (logger : State S) (stack : List Frame) (ctx : SpanContext)
    (since : Time → Time → ℤ) where
  abbrev pub request_attrs : Incoming → ℕ → ℤ → List Attr
  request_attrs r status took =
      record { key = "method"; value = text r.method }
      ∷ record { key = "path"; value = text r.path }
      ∷ record { key = "status"; value = int status }
      ∷ record { key = "duration"; value = duration took }
      ∷ []

  -- What is written for a request, by its path and the status of its answer.
  unfoldable pub log_request : Incoming → ℕ → ℤ → Act S (Unit {0})
  unfolding info_context error_context
  log_request r status took =
      if r.path == healthz_path
      then pure tt
      else if leb min_server_error_status status
      then error_context slog stack ctx logger "request failed" (request_attrs r status took)
      else info_context slog stack ctx logger "request completed" (request_attrs r status took)

  abbrev pub log_answer : Incoming → Time → Outgoing → Act S Outgoing
  log_answer r start out = do
    stop ← clock slog
    log_request r out.status (since start stop)
    pure out

  -- The rest of the chain is `next`, which is `c.Next()`.
  unfoldable pub logging_middleware : HandlerFunc S → HandlerFunc S
  unfolding log_request
  logging_middleware next r w = do start ← clock slog; out ← next r w; log_answer r start out
