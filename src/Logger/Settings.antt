-- ===== src/Logger/Settings.antt =====
-- pkg/logger/logger.go: what the settings of `InitLogger` and a span stand for, written out.
use oauth2_token_exchange.Common.{
  String, Bool, true, some, none, List, [], ◌∷◌, ◌==◌, ◌≡◌, inl, inr, Bool-cases, if◌then◌else◌,
}
use oauth2_token_exchange.Go.Strings.{to_lower}
use oauth2_token_exchange.Logger.{
  Level, debug, info, warn, error, Attr, text, bool, SpanContext, Handler, Slog, parse_level,
}

-- The level that a setting names.
abbrev pub named_level : String → Level
named_level setting =
    let lower = to_lower setting in
    if lower == "debug"
    then debug
    else if lower == "warn"
    then warn
    else if lower == "warning"
    then warn
    else if lower == "error"
    then error
    else info

pub parse_level-named_level : (setting : String) → parse_level setting ≡ named_level setting
unfolding parse_level
parse_level-named_level setting = elim (Bool-cases (to_lower setting == "warn")) [
  | inl same ↦ rw same
  | inr other ↦ rw other
]

-- The attributes of a span.
abbrev pub span_attrs : SpanContext → List Attr
span_attrs ctx =
    if ctx.is_valid
    then record { key = "trace_id"; value = text ctx.trace_id }
      ∷ record { key = "span_id"; value = text ctx.span_id }
      ∷ (if ctx.is_sampled then record { key = "trace_sampled"; value = bool true } ∷ [] else [])
    else []

-- slog's handler for the settings.
abbrev pub slog_handler : {S : Type 0} → Slog S → Level → String → Bool → Handler S
slog_handler slog least format source =
    if format == "json"
    then slog.new_json_handler (record {
      level = least;
      add_source = source;
      replace_attr =
          some (λ a. if a.key == "time" then record { key = "timestamp"; value = a.value } else a);
    })
    else slog.new_text_handler (record { level = least; add_source = source; replace_attr = none })
