-- ===== src/Transport/Router.antt =====
-- internal/transport/http/router.go, with gin's recovery and `corsMiddleware` of its middlewares: the
-- one that logs is added in Router/Logged.antt, and spans are not modelled.
pub mod Laws
pub mod Logged
use oauth2_token_exchange.Common.{
  String, ◌&&◌, Option, none, some, List, [], ◌∷◌, ◌==◌, if◌then◌else◌,
}
use oauth2_token_exchange.Go.Act.{Act, Reply, returned, failed, panicked, pure}
use oauth2_token_exchange.Go.Strings.{has_prefix}
use oauth2_token_exchange.Transport.Gin.{
  Incoming, Outgoing, HandlerFunc, plain, new_writer, status_internal,
}
use oauth2_token_exchange.Transport.Cors.{cors_middleware, allowed}

pub data Route : Type 0 where
  healthz check pat_service : Route

-- The methods of `router.Any`.
abbrev any_method : List String
any_method =
    "GET" ∷ "POST" ∷ "PUT" ∷ "PATCH" ∷ "HEAD" ∷ "OPTIONS" ∷ "DELETE" ∷ "CONNECT" ∷ "TRACE" ∷ []

-- The route that a request matches. gin cleans the doubled slash of the third pattern.
unfoldable pub route : Incoming → Option Route
unfolding has_prefix allowed
route r =
    if r.method == "GET" && (r.path == "/healthz")
    then some healthz
    else if allowed any_method r.method
    then (if has_prefix r.path "/oauth2/token-exchange/"
        then some check
        else if has_prefix r.path "/pat.v1.PATService/"
        then some pat_service
        else none)
    else none

-- `gin.Recovery()`: a panic of the route's handler ends in status 500, with the headers that the
-- middlewares have set. A handler has no error to return, so that case does not arise.
abbrev pub recovered : Outgoing → Reply Outgoing → Outgoing
recovered w (returned out) = out
recovered w (failed e) = record w { status = status_internal }
recovered w (panicked text) = record w { status = status_internal }

module _ {S : Type 0} where
  abbrev pub recovering : HandlerFunc S → HandlerFunc S
  recovering handler r w s = let (reply, s') = handler r w s in (returned (recovered w reply), s')

  unfoldable pub handle_healthz : HandlerFunc S
  handle_healthz r w = pure (record w { status = 200; content = plain "ok" })

-- The handlers of the routes, and gin's own answers where none matches: for a path that one route
-- would match with or without a slash at its end a redirect, which no middleware sees, and else the
-- handler of status 404.
pub record Handlers (S : Type 0) : Type 0 where
  pub check_handler : HandlerFunc S
  pub pat_handler : HandlerFunc S
  pub redirect : Incoming → Option Outgoing
  pub unrouted : HandlerFunc S

module _ {S : Type 0} where
  -- What the chain answers, or the redirect in its place.
  abbrev pub unless_redirected : Option Outgoing → Act S Outgoing → Act S Outgoing
  unless_redirected none chain = chain
  unless_redirected (some out) chain = pure out

module _ {S : Type 0} (canonical : String → String) (origins : List String) (h : Handlers S) where
  abbrev pub handler_of : Option Route → HandlerFunc S
  handler_of none = h.unrouted
  handler_of (some healthz) = handle_healthz
  handler_of (some check) = h.check_handler
  handler_of (some pat_service) = h.pat_handler

  abbrev pub redirection : Option Route → Incoming → Option Outgoing
  redirection none r = h.redirect r
  redirection (some to) r = none

  abbrev pub dispatch : Option Route → HandlerFunc S
  dispatch to r w =
      unless_redirected (redirection to r)
        (cors_middleware canonical origins (recovering (handler_of to)) r w)

  -- `NewRouter`: what the engine does with a request.
  unfoldable pub new_router : Incoming → Act S Outgoing
  unfolding route cors_middleware handle_healthz
  new_router r = dispatch (route r) r new_writer
