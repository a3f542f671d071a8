-- ===== src/Tracer.antt =====
-- pkg/tracer/tracer.go: the global tracer.
pub mod Laws
use oauth2_token_exchange.Common.{
  String, Bool, true, false, Option, none, some, List, [], ◌∷◌, if◌then◌else◌,
}
use oauth2_token_exchange.Go.Errors.{GoError}
use oauth2_token_exchange.Go.Act.{Act, Reply, returned, failed, panicked}
use oauth2_token_exchange.Go.Map.{StringMap}
use oauth2_token_exchange.Otel
use oauth2_token_exchange.Otel.{Floats, Sdk, Config, Global, Tracer, noop}

-- The variables of the package, with those of pkg/otel.
pub record State (E R F : Type 0) : Type 0 where
  pub default_tracer : Option (Tracer E R F)
  pub init_once : Bool
  pub err_init : Option GoError
  pub otel : Global E R F

abbrev pub new_state : {E R F : Type 0} → State E R F
new_state = record {
  default_tracer = none;
  init_once = false;
  err_init = none;
  otel = record { tracer_provider = none; registered = noop; propagators = [] };
}

-- An `error` that a function returns.
abbrev pub of_error : Option GoError → Reply (Unit {0})
of_error none = returned tt
of_error (some e) = failed e

module _ {S E R : Type 0} (floats : Floats) (library : Sdk S E R)
    (range : StringMap → StringMap) where
  open floats use {Float}

  -- The body of `initOnce.Do`, by the outcome of `otel.InitTracer`.
  abbrev pub keep :
      State E R Float
      → Reply (Tracer E R Float) × (Global E R Float × S)
      → Reply (Unit {0}) × (State E R Float × S)
  keep st (returned t, (g, s)) =
      (returned tt, (record st { default_tracer = some t; init_once = true; otel = g }, s))
  keep st (failed e, (g, s)) =
      (failed e, (record st { err_init = some e; init_once = true; otel = g }, s))
  keep st (panicked text, (g, s)) = (panicked text, (record st { init_once = true; otel = g }, s))

  -- `InitTracer`
  unfoldable pub init_tracer : String → Config Float → Act (State E R Float × S) (Unit {0})
  init_tracer service_name cfg (st, s) =
      if st.init_once
      then (of_error st.err_init, (st, s))
      else keep st (
          Otel.init_tracer floats library range (record cfg { service_name = service_name })
            (st.otel, s))

-- A span by the tracer that starts it, with its name and its first attributes.
pub record Span (E R F : Type 0) : Type 0 where
  pub tracer : Tracer E R F
  pub name : String
  pub attributes : StringMap

abbrev pub tracer_or_noop : {E R F : Type 0} → Option (Tracer E R F) → Tracer E R F
tracer_or_noop none = record { provider = noop; name = "noop" }
tracer_or_noop (some t) = t

-- `Start`, with the attributes of its options
unfoldable pub start : {E R F : Type 0} → State E R F → String → StringMap → Span E R F
start st name attributes = record {
  tracer = tracer_or_noop st.default_tracer;
  name = name;
  attributes = attributes;
}
