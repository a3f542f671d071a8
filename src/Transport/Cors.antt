-- ===== src/Transport/Cors.antt =====
-- `corsMiddleware` of internal/transport/http/middleware.go.
pub mod Laws
use oauth2_token_exchange.Common.{
  String, Bool, true, false, ◌&&◌, not, List, [], ◌∷◌, ◌<>◌, ◌==◌, if◌then◌else◌,
}
use oauth2_token_exchange.Go.Act.{Act, pure}
use oauth2_token_exchange.Go.Map.{get}
use oauth2_token_exchange.Go.Strings.{has_prefix}
use oauth2_token_exchange.Transport.Gin.{
  Incoming, Outgoing, HandlerFunc, status_no_content, get_header, set_header,
}

-- `allowedOrigins[origin]`, for the map that is made of the list
unfoldable pub allowed : List String → String → Bool
allowed [] origin = false
allowed (o ∷ os) origin = let rest = allowed os origin in if o == origin then true else rest

abbrev pub is_empty : List String → Bool
is_empty [] = true
is_empty (_ ∷ _) = false

abbrev pub allow_origin : String
allow_origin = "Access-Control-Allow-Origin"

abbrev pub allow_credentials : String
allow_credentials = "Access-Control-Allow-Credentials"

abbrev pub allow_methods : String
allow_methods = "Access-Control-Allow-Methods"

abbrev pub allow_headers : String
allow_headers = "Access-Control-Allow-Headers"

abbrev pub request_headers : String
request_headers =
    "Content-Type, Content-Length, Accept-Encoding, "
    <> "Authorization, accept, origin, Cache-Control, X-Requested-With, "
    <> "Connect-Protocol-Version, Connect-Content-Encoding, Connect-Timeout-Ms, "
    <> "X-Auth-Request-User, X-Auth-Request-Email, X-Auth-Request-Preferred-Username"

abbrev pub pat_prefix : String
pat_prefix = "/pat.v1.PATService"

module _ (canonical : String → String) (origins : List String) where
  -- The headers that depend on the origin.
  unfoldable pub origin_headers : String → Outgoing → Outgoing
  unfolding set_header allowed
  origin_headers origin w =
      if not (origin == "") && allowed origins origin
      then set_header canonical allow_credentials "true"
          (set_header canonical allow_origin origin w)
      else if is_empty origins
      then set_header canonical allow_origin "*" w
      else w

  unfoldable pub cors_headers : String → Outgoing → Outgoing
  unfolding origin_headers set_header
  cors_headers origin w =
      set_header canonical allow_headers request_headers
        (set_header canonical allow_methods "POST, OPTIONS, GET" (origin_headers origin w))

  -- The middleware around the rest of the chain.
  unfoldable pub cors_middleware : {S : Type 0} → HandlerFunc S → HandlerFunc S
  unfolding has_prefix get_header cors_headers
  cors_middleware next r w =
      if has_prefix r.path pat_prefix
      then (let w' = cors_headers (get_header canonical r "Origin") w in
          if r.method == "OPTIONS"
          then pure (record w' { status = status_no_content })
          else next r w')
      else next r w
