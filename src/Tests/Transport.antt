-- ===== src/Tests/Transport.antt =====
-- Requests to the server, over the stand-in for the network and a Redis that keeps nothing.
use oauth2_token_exchange.Transport.Router.{Handlers, new_router, route}
use oauth2_token_exchange.Transport.Router.Laws.{new_router_recovers}
use oauth2_token_exchange.Authz.Types.{build_decision_from_claims}
use oauth2_token_exchange.Authz.Claims.{parse_id_token_claims}
use oauth2_token_exchange.Zitadel.Types.{decode_token_response, decode_user_info}
use oauth2_token_exchange.Http.{with_auth_token, with_basic_auth, with_body, with_content_type}
use oauth2_token_exchange.Zitadel.Tokens.{exchange_with_actor, get_user_info}
use oauth2_token_exchange.Common.Int.{pos}
use oauth2_token_exchange.Common.{
  String, ◌<>◌, true, false, Option, some, none, [], ◌∷◌, ◌≡◌, ◌≢◌, refl,
}
use oauth2_token_exchange.Go.Errors.{sentinel, redis_nil, ok}
use oauth2_token_exchange.Go.Act.{returned, failed, panicked}
use oauth2_token_exchange.Go.Map.{lookup}
use oauth2_token_exchange.Go.Strings.{strip, trim_right, is_space}
use oauth2_token_exchange.Cache.{CachedToken, Redis, redis_cache}
use oauth2_token_exchange.Cache.Laws.{IsLawful}
use oauth2_token_exchange.Authz.Service.{authorize_pat, authorize_token, bare_token, token_claims}
use oauth2_token_exchange.Authz.Service.History.{IsSeparate}
use oauth2_token_exchange.Transport.Gin.{Incoming, Outgoing, new_writer, no_content}
use oauth2_token_exchange.Transport.Config.{Config}
use oauth2_token_exchange.Transport.Check.{handle_check}
use oauth2_token_exchange.Transport.Check.Laws.{
  authorize_pat-bearer, handle_check_returned, IsAnswer,
}
use oauth2_token_exchange.Transport.Cors.{cors_headers, allowed, allow_origin}
use oauth2_token_exchange.Transport.Cors.Laws.{KeepsNames, cors_headers_credentials}
use oauth2_token_exchange.Transport.Server.{Platform, authz_domain_service, new_handler}
use oauth2_token_exchange.Tests.Memory.{Memory, json, keys, the_service}
use oauth2_token_exchange.Tests.Network.{outside_of}
use oauth2_token_exchange.Go.Time.{zero_time}
use oauth2_token_exchange.Go.Json.{JsonText}

abbrev pub redis : Redis Memory
redis = record {
  get = λ k m. (failed (sentinel redis_nil), m);
  set = λ k v ttl m. (returned tt, m);
}

abbrev pub platform_over : {S : Type 0} → Redis S → JsonText → Platform S Unit
platform_over redis json = record {
  outside = outside_of;
  go_redis = record {
    parse_url = λ url. ok tt;
    set_pool_size = λ n opt. opt;
    connect = λ opt. redis;
    ping = λ opt m. (returned tt, m);
  };
  now = λ m. (zero_time, m);
  sha256 = λ bytes. bytes;
  json = json;
  canonical = λ k. k;
  range = λ m. m;
  serve_rpc = λ h r w m. (returned w, m);
  redirect = λ r. none;
  unrouted = λ r w m. (returned (record w { status = 404 }), m);
  init_tracer = λ c m. (returned tt, m);
}

abbrev pub platform : Platform Memory Unit
platform = platform_over redis json

abbrev pub config : Config
config = record {
  server = record { addr = ":8080"; mode = "release"; read_timeout = pos 1; write_timeout = pos 1 };
  redis = record { url = "redis://r"; pool_size = pos 10 };
  auth = record {
    admin_pat = "admin";
    zitadel = record {
      issuer = "https://z/";
      client_id = "id";
      client_secret = "secret";
      organization_id = "org";
    };
    cache_ttl = pos 300;
    header_keys = record {
      user_id = "X-User";
      user_email = "X-Email";
      user_groups = "X-Groups";
      user_preferred_username = "X-Name";
      user_jwt = "X-Jwt";
    };
  };
  observability = record {
    metrics_enabled = false;
    trace_enabled = false;
    tracing_endpoint_url = "";
    log_level = "info";
    format = "json";
    log_source = false;
  };
  allowed_origins = "https://app" ∷ [];
}

abbrev pub nothing : Memory → String → Option CachedToken
nothing m h = none

pub redis-IsLawful : IsLawful (redis_cache redis json) nothing
unfolding redis_cache
redis-IsLawful = record {
  get_sound = λ k s t h. cc;
  held-get = λ k j s u h. h;
  held-set = λ k t u ttl s w h. cc;
  held-set_any = λ k t u ttl s h. cc;
  held-set_ne = λ k j t u ttl s differ h. h;
}

pub calls-IsSeparate : IsSeparate (authz_domain_service platform config redis) nothing
calls-IsSeparate = record {
  held-user_info = λ g wired pat h st t e. e;
  held-exchange = λ subject type actor h st t e. e;
}

abbrev pub the_request : Incoming
the_request = record {
  method = "GET";
  path = "/oauth2/token-exchange/x";
  header = ("Authorization", "Bearer secret") ∷ [];
}

abbrev pub the_answer : Outgoing
the_answer = record new_writer {
  header = ("X-User", "1") ∷ ("X-Email", "ada@example.org") ∷ ("X-Jwt", "jwt") ∷ [];
}

handle_check_returned_example :
    IsAnswer (new_handler platform config redis) the_request new_writer [] the_answer
unfolding handle_check new_handler authorize_pat get_user_info with_auth_token decode_user_info
    exchange_with_actor with_content_type with_body with_basic_auth decode_token_response
    parse_id_token_claims build_decision_from_claims token_claims
handle_check_returned_example =
    handle_check_returned (new_handler platform config redis) the_request new_writer the_answer []
      refl

authorize_pat-bearer_example :
    authorize_pat the_service (bare_token ("Bearer " <> "secret")) (pos 300) keys
    ≡ authorize_token the_service "secret" (pos 300) keys
unfolding is_space trim_right strip
authorize_pat-bearer_example =
    authorize_pat-bearer the_service (pos 300) keys "secret" (λ e. cc) refl refl refl

names : KeepsNames (λ k. k)
names = record {
  origin_kept = refl;
  credentials_kept = refl;
  methods_kept = refl;
  headers_kept = refl;
}

abbrev app : String
app = "https://app"

cors_headers_credentials_example :
    (app ≢ "")
    × (allowed (app ∷ []) app ≡ true)
    × (lookup allow_origin (cors_headers (λ k. k) (app ∷ []) app new_writer).header ≡ some app)
unfolding lookup cors_headers
cors_headers_credentials_example =
    cors_headers_credentials (λ k. k) (app ∷ []) names app "true" new_writer refl refl

abbrev handlers : Handlers Memory
handlers = record {
  check_handler = λ r w m. (panicked "boom", m);
  pat_handler = λ r w m. (returned w, m);
  redirect = λ r. none;
  unrouted = λ r w m. (returned (record w { status = 404 }), m);
}

new_router_recovers_example :
    (out : Outgoing) × (new_router (λ k. k) ("https://app" ∷ []) handlers the_request []
      ≡ (returned out, []))
    × (out.status ≡ 500)
    × (out.content ≡ no_content)
unfolding route
new_router_recovers_example =
    new_router_recovers (λ k. k) ("https://app" ∷ []) handlers the_request [] [] "boom" (λ e. cc)
      refl refl
