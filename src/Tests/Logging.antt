-- ===== src/Tests/Logging.antt =====
-- A logger whose lines are kept in the world, and a request that is logged.
use oauth2_token_exchange.Common.{true, false, not, some, List, [], ◌∷◌, ◌≡◌, refl, if◌then◌else◌}
use oauth2_token_exchange.Common.Int.{ℤ, pos, ltb_ℤ}
use oauth2_token_exchange.Go.Act.{returned}
use oauth2_token_exchange.Go.Time.{Time, zero_time}
use oauth2_token_exchange.Logger.{
  debug, info, warn, error, info_context, debug_context, warn_context, error_context, severity,
  text, int, duration, Frame, program, within, LogRecord, SpanContext, Handler, HandlerOptions,
  Slog, State, new_state, init_logger, ignoring, parse_level,
}
use oauth2_token_exchange.Logger.Laws.{
  IsSlog, IsLogged, log_after_init, log_context-IsLogged, log_context,
}
use oauth2_token_exchange.Transport.Gin.{Incoming, Outgoing, new_writer}
use oauth2_token_exchange.Transport.Logging.{logging_middleware}
use oauth2_token_exchange.Transport.Logging.Laws.{Ends, logging_middleware_visible}

-- The world is the records that were written.
abbrev Written : Type 0
Written = List LogRecord

abbrev keeping : HandlerOptions → Handler Written
keeping o = record {
  enabled = λ l. not (ltb_ℤ (severity l) (severity o.level));
  handle = λ ctx r s. (returned tt, r ∷ s);
}

abbrev top : List Frame → Frame
top [] = within "main"
top (pc ∷ stack) = pc

abbrev slog : Slog Written
slog = record {
  new_json_handler = keeping;
  new_text_handler = keeping;
  log_attrs = λ h stack ctx l msg attrs s.
      if h.enabled l
      then ignoring
          (h.handle ctx
            (record { at = zero_time; level = l; msg = msg; pc = some (top stack); attrs = attrs }))
          s
      else (returned tt, s);
  now = λ s. (zero_time, s);
}

slog-IsSlog : IsSlog slog
slog-IsSlog = record {
  enabled_json = λ o l. refl;
  enabled_text = λ o l. refl;
  log_attrs_enabled = λ h pc stack ctx l msg attrs s e. rw e;
  log_attrs_disabled = λ h stack ctx l msg attrs s e. rw e;
}

abbrev span : SpanContext
span = record { is_valid = true; is_sampled = false; trace_id = "t1"; span_id = "s1" }

log_context-IsLogged_example :
    IsLogged slog slog-IsSlog "WARN" "json" true
      (program 1)
      []
      span
      warn
      "careful"
      []
      []
      (log_after_init slog slog-IsSlog "WARN" "json" true (program 1) [] span warn "careful" [] [])
unfolding parse_level
log_context-IsLogged_example =
    log_context-IsLogged slog slog-IsSlog "WARN" "json" true (program 1) [] span warn "careful" []
      []

abbrev logger : State Written
logger = init_logger slog "INFO" "text" false new_state

abbrev visit : Incoming
visit = record { method = "GET"; path = "/pat"; header = [] }

abbrev answer : Outgoing
answer = record new_writer { status = 503 }

abbrev since : Time → Time → ℤ
since start stop = pos 5

logger-Ends : Ends slog logger [] span since
unfolding init_logger info_context debug_context warn_context error_context
logger-Ends debug msg attrs s = refl
logger-Ends info msg attrs s = refl
logger-Ends warn msg attrs s = refl
logger-Ends error msg attrs s = refl

logging_middleware_visible_example :
    logging_middleware slog logger [] span since (λ r w s. (returned answer, s)) visit new_writer []
    ≡ (
      returned answer,
      (log_context slog logger [] span error "request failed"
          (record { key = "method"; value = text "GET" }
            ∷ record { key = "path"; value = text "/pat" }
            ∷ record { key = "status"; value = int 503 }
            ∷ record { key = "duration"; value = duration (pos 5) }
            ∷ [])
          []).1,
    )
logging_middleware_visible_example =
    logging_middleware_visible slog logger [] span since (λ r w s. (returned answer, s)) visit
      new_writer answer [] [] logger-Ends (λ e. cc) refl
