-- ===== src/Logger/Laws.antt =====
-- pkg/logger/logger.go: what is written, once the logger is initialised.
use mathlib.Core.Path.{ap₂}
use oauth2_token_exchange.Common.{
  String, Bool, true, false, not, some, List, ◌∷◌, ◌++◌, ◌==◌, ◌≡◌, ◌⊎◌, inl, inr, refl, ap, sym,
  subst, ◌∙◌, arith, Bool-cases, if◌then◌else◌,
}
use oauth2_token_exchange.Common.Int.{ltb_ℤ}
use oauth2_token_exchange.Go.Act.{Act, Reply, returned}
use oauth2_token_exchange.Logger.Settings.{
  named_level, parse_level-named_level, span_attrs, slog_handler,
}
use oauth2_token_exchange.Logger.{
  Level, debug, info, warn, error, severity, Attr, Frame, within, LogRecord, SpanContext, Handler,
  HandlerOptions, Slog, State, new_state, parse_level, rename_time, base_handler, otel_handler,
  init_logger, ignoring, log_with_caller, log_to, info_context, debug_context, warn_context,
  error_context,
}

-- What slog documents: its handlers let the level of their options pass and those above it, and
-- `LogAttrs` hands a record with the time and its caller to a handler that lets the level pass.
pub record IsSlog {S : Type 0} (slog : Slog S) : Type 0 where
  pub enabled_json :
      (o : HandlerOptions) (l : Level)
      → (slog.new_json_handler o).enabled l ≡ not (ltb_ℤ (severity l) (severity o.level))
  pub enabled_text :
      (o : HandlerOptions) (l : Level)
      → (slog.new_text_handler o).enabled l ≡ not (ltb_ℤ (severity l) (severity o.level))
  pub log_attrs_enabled :
      (h : Handler S) (pc : Frame) (stack : List Frame) (ctx : SpanContext) (l : Level)
      → (msg : String) (attrs : List Attr) (s : S) → h.enabled l ≡ true
      → slog.log_attrs h (pc ∷ stack) ctx l msg attrs s
        ≡ ignoring
            (h.handle ctx
              (record { at = (slog.now s).0; level = l; msg = msg; pc = some pc; attrs = attrs }))
            (slog.now s).1
  pub log_attrs_disabled :
      (h : Handler S) (stack : List Frame) (ctx : SpanContext) (l : Level)
      → (msg : String) (attrs : List Attr) (s : S) → h.enabled l ≡ false
      → slog.log_attrs h stack ctx l msg attrs s ≡ (returned tt, s)

-- The four functions by their level, and their names.
module _ {S : Type 0} (slog : Slog S) (st : State S) (stack : List Frame) (ctx : SpanContext) where
  abbrev pub log_context : Level → String → List Attr → Act S (Unit {0})
  log_context debug = debug_context slog stack ctx st
  log_context info = info_context slog stack ctx st
  log_context warn = warn_context slog stack ctx st
  log_context error = error_context slog stack ctx st

abbrev function_name : Level → String
function_name debug = "DebugContext"
function_name info = "InfoContext"
function_name warn = "WarnContext"
function_name error = "ErrorContext"

module _ {S : Type 0} (slog : Slog S) where
  init_logger-done :
      (level format : String) (source : Bool) (st : State S)
      → st.init_once ≡ true
      → init_logger slog level format source st ≡ st
  unfolding init_logger
  init_logger-done level format source st done = ground arith

  -- Only the first call of `InitLogger` takes effect.
  pub init_logger-again :
      (level format level' format' : String) (source source' : Bool) (st : State S)
      → let once = init_logger slog level format source st in
        init_logger slog level' format' source' once ≡ once
  unfolding init_logger
  init_logger-again level format level' format' source source' st = elim (Bool-cases st.init_once) [
    | inl done ↦
        init_logger-done level' format' source' (init_logger slog level format source st)
          (ground arith)
    | inr first ↦
        init_logger-done level' format' source' (init_logger slog level format source st)
          (ground arith)
  ]

  log_context-by_level :
      (source : Bool) (h : Handler S) (caller : Frame) (stack : List Frame) (ctx : SpanContext)
      (l : Level)
      → (msg : String) (attrs : List Attr) (s : S) (st : State S) → st.default_logger ≡ some h
      → st.add_source ≡ source
      → log_context slog st (caller ∷ stack) ctx l msg attrs s
        ≡ log_to slog (caller ∷ stack) ctx source (some h) (function_name l) l msg attrs s
  unfolding info_context debug_context warn_context error_context
  log_context-by_level source h caller stack ctx debug msg attrs s st e f =
      ap₂ (λ b o. log_to slog (caller ∷ stack) ctx b o "DebugContext" debug msg attrs s) f e
  log_context-by_level source h caller stack ctx info msg attrs s st e f =
      ap₂ (λ b o. log_to slog (caller ∷ stack) ctx b o "InfoContext" info msg attrs s) f e
  log_context-by_level source h caller stack ctx warn msg attrs s st e f =
      ap₂ (λ b o. log_to slog (caller ∷ stack) ctx b o "WarnContext" warn msg attrs s) f e
  log_context-by_level source h caller stack ctx error msg attrs s st e f =
      ap₂ (λ b o. log_to slog (caller ∷ stack) ctx b o "ErrorContext" error msg attrs s) f e

  module _ (lawful : IsSlog slog) where
    base_handler-enabled :
        (level l : Level) (format : String) (source : Bool)
        → (base_handler slog level format source).enabled l
          ≡ not (ltb_ℤ (severity l) (severity level))
    unfolding base_handler
    base_handler-enabled level l format source = elim (Bool-cases (format == "json")) [
      | inl json ↦ rw json (lawful.enabled_json _ l)
      | inr other ↦ rw other (lawful.enabled_text _ l)
    ]

    module _ (h : Handler S) (caller : Frame) (stack : List Frame) (ctx : SpanContext) (l : Level)
        (msg : String) (attrs : List Attr) (s : S) where
      -- The record for the handler, with the caller or the place in this package.
      abbrev log_record : Frame → LogRecord
      log_record pc = record {
        at = (slog.now s).0;
        level = l;
        msg = msg;
        pc = some pc;
        attrs = attrs;
      }

      abbrev place : Bool → String → Frame
      place source name = if source then caller else within name

      log_to_enabled :
          (name : String) (source : Bool)
          → h.enabled l ≡ true
          → log_to slog (caller ∷ stack) ctx source (some h) name l msg attrs s
            ≡ ignoring (h.handle ctx (log_record (place source name))) (slog.now s).1
      unfolding log_with_caller
      log_to_enabled name true on = rw on
      log_to_enabled name false on =
          lawful.log_attrs_enabled h (within name) (caller ∷ stack) ctx l msg attrs s on

      log_to_disabled :
          (name : String) (source : Bool)
          → h.enabled l ≡ false
          → let out = log_to slog (caller ∷ stack) ctx source (some h) name l msg attrs s in
            (out ≡ (returned tt, s)) ⊎ (out ≡ (returned tt, (slog.now s).1))
      unfolding log_with_caller
      log_to_disabled name true off = inr (rw off)
      log_to_disabled name false off =
          inl (lawful.log_attrs_disabled h (within name ∷ caller ∷ stack) ctx l msg attrs s off)

    module _ (level format : String) (source : Bool) (caller : Frame) (stack : List Frame)
        (ctx : SpanContext) (l : Level) (msg : String) (attrs : List Attr) (s : S) where
      abbrev base : Handler S
      base = base_handler slog (parse_level level) format source

      -- The call, after `InitLogger` with the three settings.
      abbrev pub log_after_init : Reply (Unit {0}) × S
      log_after_init =
          log_context slog (init_logger slog level format source new_state) (caller ∷ stack) ctx l
            msg attrs s

      log_context-log_to :
          log_after_init
          ≡ log_to slog
              (caller ∷ stack)
              ctx
              source
              (some (otel_handler base))
              (function_name l)
              l
              msg
              attrs
              s
      unfolding init_logger
      log_context-log_to =
          log_context-by_level source (otel_handler base) caller stack ctx l msg attrs s
            (init_logger slog level format source new_state) refl refl

      abbrev record_for_base : LogRecord
      record_for_base = record {
        at = (slog.now s).0;
        level = l;
        msg = msg;
        pc = some (if source then caller else within (function_name l));
        attrs = attrs ++ span_attrs ctx;
      }

      -- Below the level nothing is handed to the handler, though the clock may have been read; from it
      -- on the handler gets the record, and its error is ignored.
      abbrev IsLoggedBy : Level → Bool → Reply (Unit {0}) × S → Type 0
      IsLoggedBy least true out = (out ≡ (returned tt, s)) ⊎ (out ≡ (returned tt, (slog.now s).1))
      IsLoggedBy least false out =
          out
          ≡ ignoring ((slog_handler slog least format source).handle ctx record_for_base)
              (slog.now s).1

      -- The same for the level that the setting names.
      abbrev pub IsLogged : Reply (Unit {0}) × S → Type 0
      IsLogged = IsLoggedBy (named_level level) (ltb_ℤ (severity l) (severity (named_level level)))

      log_to-IsLogged :
          (below : Bool)
          → ltb_ℤ (severity l) (severity (parse_level level)) ≡ below
          → IsLoggedBy (parse_level level) below (
              log_to slog
                (caller ∷ stack)
                ctx
                source
                (some (otel_handler base))
                (function_name l)
                l
                msg
                attrs
                s)
      unfolding otel_handler base_handler rename_time
      log_to-IsLogged true e =
          log_to_disabled (otel_handler base) caller stack ctx l msg attrs s (function_name l)
            source (base_handler-enabled (parse_level level) l format source ∙ ap not e)
      log_to-IsLogged false e =
          log_to_enabled (otel_handler base) caller stack ctx l msg attrs s (function_name l) source
            (base_handler-enabled (parse_level level) l format source ∙ ap not e)

      -- After `InitLogger`, a message whose level is below the one that the setting names, in any
      -- case: debug, warn or warning, error, and else info, is not handed to slog's handler, and
      -- any other is: with its attributes, those of a valid span behind them, which are its two
      -- ids and, if it is sampled, a mark, and as its place the caller, or, where sources are
      -- off, the function of this package; the handler's error is ignored. The handler is slog's
      -- for JSON, with the time under another key, if the format is json, and else the one for
      -- text. It holds for handlers and loggers that do as slog documents.
      pub log_context-IsLogged : IsLogged log_after_init
      log_context-IsLogged =
          let below = ltb_ℤ (severity l) (severity (parse_level level)) in
          subst (λ least. IsLoggedBy least (ltb_ℤ (severity l) (severity least)) log_after_init)
            (parse_level-named_level level)
            (subst (IsLoggedBy (parse_level level) below) (sym log_context-log_to)
              (log_to-IsLogged below refl))
