-- ===== src/Transport/Server/Start.antt =====
-- internal/transport/http/di.go: what `NewServer` makes of the settings beside the handlers.
use oauth2_token_exchange.Common.{String, true, []}
use oauth2_token_exchange.Common.Int.{◌+ℤ◌, wrap64}
use oauth2_token_exchange.Cache.{Duration}
use oauth2_token_exchange.Go.Act.{Act, pure, ◌>>=◌}
use oauth2_token_exchange.Go.Map.{StringMap}
use oauth2_token_exchange.Logger
use oauth2_token_exchange.Logger.{Slog}
use oauth2_token_exchange.Otel
use oauth2_token_exchange.Otel.{Floats, Sdk}
use oauth2_token_exchange.Tracer
use oauth2_token_exchange.Go.Time.{Time}
use oauth2_token_exchange.Transport.Gin.{Incoming, Outgoing}
use oauth2_token_exchange.Transport.Server.{Platform, new_server}
use oauth2_token_exchange.Transport.Config.{Config, ServerConfig, ObservabilityConfig}

abbrev pub service_name : String
service_name = "oauth2-token-exchange"

-- `logger.InitLogger` with the settings
unfoldable pub start_logger :
    {S : Type 0} → Slog S → ObservabilityConfig → Logger.State S → Logger.State S
start_logger slog o = Logger.init_logger slog o.log_level o.format o.log_source

unfoldable pub otel_config : (floats : Floats) → ObservabilityConfig → Otel.Config floats.Float
otel_config floats o = record {
  service_name = service_name;
  endpoint_url = o.tracing_endpoint_url;
  enabled = o.trace_enabled;
  sample_ratio = floats.one;
  is_insecure = true;
  resource_attributes = [];
}

-- `tracer.InitTracer` with the settings: what `Platform` takes as `init_tracer`
unfoldable pub start_tracer :
    {S E R : Type 0} (floats : Floats)
    → Sdk S E R
    → (StringMap → StringMap)
    → ObservabilityConfig
    → Act (Tracer.State E R floats.Float × S) (Unit {0})
unfolding otel_config
start_tracer floats library range o =
    Tracer.init_tracer floats library range service_name (otel_config floats o)

-- The limits of the `http.Server`. The product of a duration wraps around.
pub record HttpServer : Type 0 where
  pub addr : String
  pub read_timeout : Duration
  pub write_timeout : Duration
  pub idle_timeout : Duration

unfoldable pub http_server : ServerConfig → HttpServer
http_server c = record {
  addr = c.addr;
  read_timeout = c.read_timeout;
  write_timeout = c.write_timeout;
  idle_timeout = wrap64 (c.read_timeout +ℤ c.read_timeout);
}

-- `Server`: the `http.Server` with its limits, and what it does with a request.
pub record Server (S : Type 0) : Type 0 where
  pub limits : HttpServer
  pub serve : Incoming → Act S Outgoing

-- The methods of an `http.Server`; a shutdown is given the deadline of its context.
pub record NetHttp (S : Type 0) : Type 0 where
  pub listen_and_serve : Server S → Act S (Unit {0})
  pub shutdown : Server S → Time → Act S (Unit {0})

module _ {S : Type 0} (net_http : NetHttp S) where
  unfoldable pub listen_and_serve : Server S → Act S (Unit {0})
  listen_and_serve = net_http.listen_and_serve

  unfoldable pub shutdown : Server S → Time → Act S (Unit {0})
  shutdown = net_http.shutdown

-- `NewServer`, as it is returned
unfoldable pub make_server : {S O : Type 0} → Platform S O → Config → Act S (Server S)
unfolding http_server
make_server p cfg = do
  serve ← new_server p cfg
  pure (record { limits = http_server cfg.server; serve = serve })
