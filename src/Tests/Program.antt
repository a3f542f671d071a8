-- ===== src/Tests/Program.antt =====
-- The whole process, with tracing enabled, over stand-ins that have nothing to say.
use oauth2_token_exchange.Common.{ℕ, ◌+◌, String, true, false, none, [], ◌∷◌, ◌≡◌, refl}
use oauth2_token_exchange.Go.Errors.{sentinel, redis_nil, ok}
use oauth2_token_exchange.Go.Act.{Act, returned, failed, ◌>>=◌}
use oauth2_token_exchange.Go.Exit.{going}
use oauth2_token_exchange.Go.Map.{StringMap}
use oauth2_token_exchange.Go.Time.{Time, zero_time}
use oauth2_token_exchange.Otel
use oauth2_token_exchange.Tracer
use oauth2_token_exchange.Transport.Config.{Config}
use oauth2_token_exchange.Transport.Config.Load.{Settings, must_load}
use oauth2_token_exchange.Transport.Server.{Platform, new_server}
use oauth2_token_exchange.Transport.Server.Start.{NetHttp, make_server, start_tracer, shutdown}
use oauth2_token_exchange.Process.{signal, main}
use oauth2_token_exchange.Process.Program.{
  World, platform, serve_and_stop, program, IsWaitingOrFlushed, program-IsWaitingOrFlushed,
}
use oauth2_token_exchange.Tests.Memory.{json}
use oauth2_token_exchange.Tests.Network.{calendar}
use oauth2_token_exchange.Tests.Tracing.{floats, library}
use oauth2_token_exchange.Tests.Transport.{config}

abbrev TestWorld : Type 0
TestWorld = World ℕ String StringMap ℕ

abbrev traced : Config
traced = record config {
  observability = record config.observability {
    trace_enabled = true;
    tracing_endpoint_url = "grpc://collector:4317";
  };
}

abbrev settings : Settings TestWorld
settings = record {
  read_in_config = λ w. (returned tt, w);
  getenv = λ name w. "";
  merge_in_config = λ name w. (returned tt, w);
  unmarshal = λ w. (returned traced, w);
  log_line = λ line w. w;
}

abbrev base : Platform TestWorld Unit
base = record {
  outside = record {
    network = record {
      send = λ r readable w. (returned (record { status = 404; text = ""; document = none }), w);
      canonical = λ k. k;
      propagated = λ w. none;
    };
    calendar = calendar;
    show_users = λ r. "";
    show_created_user = λ r. "";
  };
  go_redis = record {
    parse_url = λ url. ok tt;
    set_pool_size = λ n opt. opt;
    connect = λ opt. record {
      get = λ k w. (failed (sentinel redis_nil), w);
      set = λ k v ttl w. (returned tt, w);
    };
    ping = λ opt w. (returned tt, w);
  };
  now = λ w. (zero_time, w);
  sha256 = λ bytes. bytes;
  json = json;
  canonical = λ k. k;
  range = λ m. m;
  serve_rpc = λ h r out w. (returned out, w);
  redirect = λ r. none;
  unrouted = λ r out w. (returned (record out { status = 404 }), w);
  init_tracer = λ o w. (returned tt, w);
}

abbrev net_http : NetHttp TestWorld
net_http = record {
  listen_and_serve = λ server w. (returned tt, w);
  shutdown = λ server deadline w. (returned tt, w);
}

abbrev shut : Time → Otel.SdkProvider String StringMap ℕ → Act ℕ (Unit {0})
shut deadline tp n = (returned tt, n + 1)

abbrev fresh : TestWorld
fresh = (Tracer.new_state, 0)

-- The server is made, with the tracer that its settings ask for.
abbrev made_in : TestWorld
made_in =
    ((make_server
      (platform floats library (λ m. m) shut settings base net_http (λ e. false) (λ line w. w))
      traced fresh).1)

abbrev stop_server : Time → Act TestWorld (Unit {0})
stop_server deadline w = (returned tt, w)

config_read : must_load settings fresh ≡ (going traced, fresh)
unfolding must_load
config_read = refl

server_made :
    (make_server
          (platform floats library (λ m. m) shut settings base net_http (λ e. false) (λ line w. w))
          traced
        >>= serve_and_stop floats library
            (λ m. m)
            shut
            settings
            base
            net_http
            (λ e. false)
            (λ line w. w))
      fresh
    ≡ (returned stop_server, made_in)
unfolding make_server start_tracer shutdown new_server Tracer.init_tracer Otel.init_tracer
server_made = refl

program-IsWaitingOrFlushed_example :
    IsWaitingOrFlushed floats library
      (λ m. m)
      shut
      settings
      base
      net_http
      (λ e. false)
      (λ line w. w)
      stop_server
      traced
      fresh
      fresh
      made_in
      config_read
      server_made
      (signal ∷ [])
      (main
        (program floats library (λ m. m) shut settings base net_http (λ e. false) (λ line w. w))
        (signal ∷ [])
        fresh)
program-IsWaitingOrFlushed_example =
    program-IsWaitingOrFlushed floats library (λ m. m) shut settings base net_http (λ e. false)
      (λ line w. w) stop_server traced fresh fresh made_in config_read server_made
      (λ d w text h. cc) (λ d tp s. refl) ((λ line w. refl), (λ w. refl)) (λ d w. refl)
      (signal ∷ [])
