-- ===== src/Lib.antt =====
-- A model of oauth2-token-exchange: a service that lets requests pass a gateway by their personal
-- access token, which it exchanges with ZITADEL, and that manages those tokens.
--
-- A request for `/oauth2/token-exchange/` is checked: internal/transport/http/handler.go reads its
-- token, internal/app/authz passes it on, and `AuthorizePAT` of internal/domain/authz/service.go
-- decides. It looks in the cache of internal/infra/cache/redis.go, and on a miss asks ZITADEL for the
-- token's user and exchanges that user's name, through internal/infra/zitadel/client.go. The calls
-- of the token service come in through internal/transport/http/handler/pat.go and go through
-- internal/app/pat to internal/domain/pat/service_impl.go, which calls the same client.
--
-- The files: Authz.antt models internal/domain/authz (`authorize_pat` is `AuthorizePAT`,
-- `authorize_token` is what it does once the token is bare). Cache.antt models
-- internal/infra/cache/redis.go. Zitadel.antt models internal/infra/zitadel: Types, Responses,
-- PatResponses and Requests the JSON of types.go, and Tokens, Users and Pats the methods of client.go.
-- Http.antt models pkg/http/client.go with the headers for tracing of carrier.go, and Http/Spans its
-- spans. What the client asks of ZITADEL is written out, field by field, in Zitadel/Accepted.antt,
-- Zitadel/Created.antt and Zitadel/Added.antt. Pat.antt models
-- the token service: Service its domain, App internal/app/pat, and Handler the RPC handler.
-- Transport.antt models internal/transport/http: Check is handler.go with internal/app/authz,
-- Logging and Cors middleware.go, Router router.go, Server di.go, and Config internal/config.
-- Logger.antt models pkg/logger, Otel.antt pkg/otel, Tracer.antt pkg/tracer, and Process.antt
-- cmd/authz/main.go, over the events that come in while it waits. Authz/Service/Steps.antt is
-- `AuthorizePAT` once more, one call of the world at a time (`step`), and its child Interleaved the
-- requests that run at once: a system is the world and the places where the requests stand, and a
-- step is a new request, a call of one of them, or a move of the environment.
-- Go.antt holds what the code uses of Go's standard library, and Common.antt the shared helpers.
-- Functions keep the source's names in snake case.
--
-- Every call that acts on the world is a function from the state of the world to a reply and the next
-- state; a reply is a value, an error or a panic. The state is a parameter: what is known of Redis,
-- ZITADEL, the network and the clock is in the interfaces `Redis`, `Network`, `Client`, `TokenCache`
-- and in the laws that a theorem asks of them. A text is a sequence of code points. Loops recur on
-- the lists that they read. The digits of a number are written with as much fuel as the number has
-- units and one more, which is more than it has digits.
--
-- Parameters, since they are not code of the repository: resty's sending of a request with its
-- retries, which a transport error and a document that cannot be decoded bring about, the fields that
-- the propagator injects, go-redis, the texts of JSON values and of calendar times, SHA-256, gin's
-- redirects and its handler where no route matches, which runs behind the middlewares,
-- the generated code that serves the RPC calls, the order in which Go ranges over a map, and the
-- canonical form of a header's name; further the handlers of log/slog, OpenTelemetry's SDK,
-- floating-point numbers, viper, and the listening and stopping of net/http's server.
--
-- Not modelled: what a document that cannot be decoded has left in the target of a request before the
-- next attempt; the log lines and the spans within the handlers, the services and the clients,
-- which change nothing that these answer; the logging of requests stands in Transport/Logging.antt
-- and Transport/Router/Logged.antt. Metrics, which the code has only a setting for. The interfaces
-- of internal/domain/pat/repo.go, which nothing implements; the definitions under pb, of which code
-- is generated; and the end-to-end clients.
pub mod Common
pub mod Go
pub mod Http
pub mod Zitadel
pub mod Cache
pub mod Authz
pub mod Pat
pub mod Logger
pub mod Otel
pub mod Tracer
pub mod Process
pub mod Transport
pub mod Tests
