-- ===== src/Transport/Server.antt =====
-- internal/transport/http/di.go: `NewServer` puts the parts together.
pub mod Laws
pub mod Interleaved
pub mod Checked
pub mod Start
use oauth2_token_exchange.Common.{ℕ, String, Bool, true, Option, List, ◌==◌, if◌then◌else◌}
use oauth2_token_exchange.Go.Act.{Act, pure, wrapping, ◌>>=◌, ◌>>◌}
use oauth2_token_exchange.Go.Map.{StringMap}
use oauth2_token_exchange.Go.Time.{Time}
use oauth2_token_exchange.Go.Json.{JsonText}
use oauth2_token_exchange.Zitadel.Api.{Client}
use oauth2_token_exchange.Zitadel.Client.{Outside, new_client}
use oauth2_token_exchange.Zitadel.Service.{client}
use oauth2_token_exchange.Cache.{Redis, GoRedis, redis_cache, new_redis_client}
use oauth2_token_exchange.Authz.Service.{
  Service, new_service, new_service_with_machine_user_support, authorize_pat,
}
use oauth2_token_exchange.Pat.Service.{PatService, service}
use oauth2_token_exchange.Pat.Handler.{PatServiceHandler, new_pat_handler}
use oauth2_token_exchange.Transport.Gin.{Incoming, Outgoing, HandlerFunc}
use oauth2_token_exchange.Transport.Config.{Config, ZitadelConfig, ObservabilityConfig}
use oauth2_token_exchange.Transport.Check.{Handler, header_keys, handle_check}
use oauth2_token_exchange.Transport.Router.{Handlers, new_router}

-- What the server uses of the libraries and of the system, for the options `O` of go-redis. The
-- generated code serves the calls of the token service as `serve_rpc`.
pub record Platform (S O : Type 0) : Type 0 where
  pub outside : Outside S
  pub go_redis : GoRedis S O
  pub now : S → Time × S
  pub sha256 : List ℕ → List ℕ
  pub json : JsonText
  pub canonical : String → String
  pub range : StringMap → StringMap
  pub serve_rpc : PatServiceHandler S → HandlerFunc S
  pub redirect : Incoming → Option Outgoing
  pub unrouted : HandlerFunc S
  pub init_tracer : ObservabilityConfig → Act S (Unit {0})

module _ {S O : Type 0} (p : Platform S O) (cfg : Config) where
  unfoldable pub zitadel_client : Client S
  unfolding client new_client
  zitadel_client =
      let z = cfg.auth.zitadel in
      client p.outside (new_client z.issuer z.client_id z.client_secret z.organization_id)

  -- With an admin token there is a getter of user information, and without one there is none.
  unfoldable pub authz_domain_service : Redis S → Service S
  unfolding zitadel_client redis_cache new_service new_service_with_machine_user_support
  authz_domain_service redis =
      if cfg.auth.admin_pat == ""
      then new_service (redis_cache redis p.json) zitadel_client.token_exchanger true p.sha256
          p.json
      else new_service_with_machine_user_support (redis_cache redis p.json)
          zitadel_client.token_exchanger zitadel_client.user_info_getter cfg.auth.admin_pat true
          p.sha256 p.json

  unfoldable pub pat_domain_service : PatService S
  unfolding zitadel_client service
  pat_domain_service =
      service
        (record { zitadel_client = zitadel_client; admin_pat = cfg.auth.admin_pat; now = p.now })

  -- `NewHandler`
  unfoldable pub new_handler : Redis S → Handler S
  unfolding authz_domain_service header_keys
  new_handler redis = record {
    authorize = authorize_pat (authz_domain_service redis);
    cache_ttl = cfg.auth.cache_ttl;
    keys = header_keys cfg.auth.header_keys;
    canonical = p.canonical;
    range = p.range;
  }

  -- What the server does with a request once it is connected to Redis.
  unfoldable pub serve_http : Redis S → Incoming → Act S Outgoing
  unfolding new_handler pat_domain_service new_pat_handler handle_check
  serve_http redis = new_router p.canonical cfg.allowed_origins (record {
    check_handler = handle_check (new_handler redis);
    pat_handler = p.serve_rpc (new_pat_handler pat_domain_service p.now);
    redirect = p.redirect;
    unrouted = p.unrouted;
  })

  -- `NewServer`, with the handler of the server that it returns
  unfoldable pub new_server : Act S (Incoming → Act S Outgoing)
  unfolding new_redis_client serve_http
  new_server = do
    wrapping "failed to initialize tracer" (p.init_tracer cfg.observability)
    redis ←
        wrapping "failed to create redis client"
          (new_redis_client p.go_redis cfg.redis.url cfg.redis.pool_size)
    pure (serve_http redis)
