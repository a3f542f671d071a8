-- ===== src/Tests/Tracing.antt =====
-- A tracer over stand-ins for OpenTelemetry, where a number counts the calls.
use oauth2_token_exchange.Common.{ℕ, ◌+◌, String, true, leb, none, List, [], ◌∷◌}
use oauth2_token_exchange.Go.Act.{returned}
use oauth2_token_exchange.Otel.{
  Floats, Sdk, Config, Global, Tracer, SdkProvider, noop, sdk, always_sample,
}

-- Hundredths.
abbrev pub floats : Floats
floats = record { Float = ℕ; le = leb; zero = 0; one = 100 }

abbrev pub library : Sdk ℕ String (List (String × String))
library = record {
  new_grpc_exporter = λ endpoint plain n. (returned endpoint, n + 1);
  new_http_exporter = λ endpoint plain n. (returned endpoint, n + 1);
  new_resource = λ attributes n. (returned attributes, n + 1);
}

abbrev cfg : Config ℕ
cfg = record {
  service_name = "svc";
  endpoint_url = "grpc://collector:4317";
  enabled = true;
  sample_ratio = 100;
  is_insecure = true;
  resource_attributes = [];
}

abbrev unset_globals : Global String (List (String × String)) ℕ
unset_globals = record { tracer_provider = none; registered = noop; propagators = [] }

abbrev provider : SdkProvider String (List (String × String)) ℕ
provider = record {
  exporter = "collector:4317";
  resource = ("service.name", "svc") ∷ [];
  sampler = always_sample;
}

abbrev started : Tracer String (List (String × String)) ℕ
started = record { provider = sdk provider; name = "svc" }
