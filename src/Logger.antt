-- ===== src/Logger.antt =====
-- pkg/logger/logger.go: the global logger. `log/slog` is the interface `Slog`.
pub mod Settings
pub mod Laws
use oauth2_token_exchange.Common.{
  ℕ, String, Bool, true, false, Option, none, some, List, [], ◌∷◌, ◌++◌, ◌==◌, ◌||◌, if◌then◌else◌,
  get_elem?,
}
use oauth2_token_exchange.Common.Int.{ℤ, pos, negsuc}
use oauth2_token_exchange.Go.Act.{
  Act, Reply, returned, failed, panicked, pure, attempt, ◌>>=◌, ◌>>◌,
}
use oauth2_token_exchange.Go.Strings.{to_lower}
use oauth2_token_exchange.Go.Time.{Time}

pub data Level : Type 0 where
  debug info warn error : Level

-- The numbers of slog's levels.
abbrev pub severity : Level → ℤ
severity debug = negsuc 3
severity info = pos 0
severity warn = pos 4
severity error = pos 8

pub data Value : Type 0 where
  text : String → Value
  bool : Bool → Value
  int : ℕ → Value
  duration : ℤ → Value
  time : Time → Value

pub record Attr : Type 0 where
  pub key : String
  pub value : Value

-- A place on the stack: in a function of this package, or in the program.
pub data Frame : Type 0 where
  within : String → Frame
  program : ℕ → Frame

-- `slog.Record`
pub record LogRecord : Type 0 where
  pub at : Time
  pub level : Level
  pub msg : String
  pub pc : Option Frame
  pub attrs : List Attr

-- The span context that a `context.Context` carries, with its ids as texts.
pub record SpanContext : Type 0 where
  pub is_valid : Bool
  pub is_sampled : Bool
  pub trace_id : String
  pub span_id : String

-- `slog.Handler`
pub record Handler (S : Type 0) : Type 0 where
  pub enabled : Level → Bool
  pub handle : SpanContext → LogRecord → Act S (Unit {0})

pub record HandlerOptions : Type 0 where
  pub level : Level
  pub add_source : Bool
  pub replace_attr : Option (Attr → Attr)

-- What the package calls of slog and of the clock. `log_attrs` is `LogAttrs` of a `slog.Logger` with
-- the handler, called with a stack, its caller first.
pub record Slog (S : Type 0) : Type 0 where
  pub new_json_handler : HandlerOptions → Handler S
  pub new_text_handler : HandlerOptions → Handler S
  pub log_attrs :
      Handler S → List Frame → SpanContext → Level → String → List Attr → Act S (Unit {0})
  pub now : S → Time × S

-- `parseLevel`
unfoldable pub parse_level : String → Level
unfolding to_lower
parse_level level =
    let lower = to_lower level in
    if lower == "debug"
    then debug
    else if lower == "warn" || (lower == "warning")
    then warn
    else if lower == "error"
    then error
    else info

-- The attributes that `otelHandler.Handle` adds.
abbrev pub trace_attrs : SpanContext → List Attr
trace_attrs ctx =
    if ctx.is_valid
    then record { key = "trace_id"; value = text ctx.trace_id }
      ∷ record { key = "span_id"; value = text ctx.span_id }
      ∷ (if ctx.is_sampled then record { key = "trace_sampled"; value = bool true } ∷ [] else [])
    else []

-- `ReplaceAttr` of the JSON handler.
unfoldable pub rename_time : Attr → Attr
rename_time a = if a.key == "time" then record { key = "timestamp"; value = a.value } else a

-- The global variables of the package: `defaultLogger` by its handler, and whether `initOnce` is done.
pub record State (S : Type 0) : Type 0 where
  pub default_logger : Option (Handler S)
  pub init_once : Bool
  pub add_source : Bool

module _ {S : Type 0} where
  abbrev pub new_state : State S
  new_state = record { default_logger = none; init_once = false; add_source = false }

  -- `_ = m`
  abbrev pub ignoring : Act S (Unit {0}) → Act S (Unit {0})
  ignoring m = attempt m >> pure tt

  -- `otelHandler`
  unfoldable pub otel_handler : Handler S → Handler S
  otel_handler inner = record {
    enabled = inner.enabled;
    handle = λ ctx r. inner.handle ctx (record r { attrs = r.attrs ++ trace_attrs ctx });
  }

module _ {S : Type 0} (slog : Slog S) where
  -- The handler that `InitLogger` wraps.
  unfoldable pub base_handler : Level → String → Bool → Handler S
  unfolding rename_time
  base_handler level format enable_source =
      if format == "json"
      then slog.new_json_handler
          (record { level = level; add_source = enable_source; replace_attr = some rename_time })
      else slog.new_text_handler
          (record { level = level; add_source = enable_source; replace_attr = none })

  -- `InitLogger`
  unfoldable pub init_logger : String → String → Bool → State S → State S
  unfolding base_handler otel_handler parse_level
  init_logger level format enable_source st = if st.init_once then st else record {
    default_logger = some (otel_handler (base_handler (parse_level level) format enable_source));
    init_once = true;
    add_source = enable_source;
  }

  module _ (h : Handler S) (ctx : SpanContext) (level : Level) (msg : String)
      (attrs : List Attr) where
    abbrev pub emit : Time → Frame → Act S (Unit {0})
    emit at pc =
        if h.enabled level
        then ignoring (
            h.handle ctx
              (record { at = at; level = level; msg = msg; pc = some pc; attrs = attrs }))
        else pure tt

    -- The frame two above `logWithCaller`'s own.
    abbrev pub with_caller : List Frame → Option Frame → Act S (Unit {0})
    with_caller stack none s = slog.log_attrs h stack ctx level msg attrs s
    with_caller stack (some pc) s = let (at, s') = slog.now s in emit at pc s'

    -- `logWithCaller`, called with a stack.
    unfoldable pub log_with_caller : List Frame → Act S (Unit {0})
    log_with_caller stack =
        let here = within "logWithCaller" ∷ stack in with_caller here (get_elem? here 2)

  module _ (stack : List Frame) (ctx : SpanContext) where
    -- What the four functions share: the logger, if there is one, called from the function `name`.
    abbrev pub log_to :
        Bool → Option (Handler S) → String → Level → String → List Attr → Act S (Unit {0})
    log_to add_source none name level msg attrs = pure tt
    log_to add_source (some h) name level msg attrs =
        if add_source
        then log_with_caller h ctx level msg attrs (within name ∷ stack)
        else slog.log_attrs h (within name ∷ stack) ctx level msg attrs

    unfoldable pub info_context : State S → String → List Attr → Act S (Unit {0})
    unfolding log_with_caller
    info_context st = log_to st.add_source st.default_logger "InfoContext" info

    unfoldable pub debug_context : State S → String → List Attr → Act S (Unit {0})
    unfolding log_with_caller
    debug_context st = log_to st.add_source st.default_logger "DebugContext" debug

    unfoldable pub warn_context : State S → String → List Attr → Act S (Unit {0})
    unfolding log_with_caller
    warn_context st = log_to st.add_source st.default_logger "WarnContext" warn

    unfoldable pub error_context : State S → String → List Attr → Act S (Unit {0})
    unfolding log_with_caller
    error_context st = log_to st.add_source st.default_logger "ErrorContext" error
