-- ===== src/Transport/Check.antt =====
-- internal/transport/http/handler.go: the check of a request's token, and internal/app/authz below it.
pub mod Laws
use oauth2_token_exchange.Common.{ℕ, String, Bool, true, false, List, [], ◌∷◌, ◌==◌, if◌then◌else◌}
use oauth2_token_exchange.Go.Errors.{Result, ok, err}
use oauth2_token_exchange.Go.Act.{Act, pure, attempt, ◌>>=◌}
use oauth2_token_exchange.Go.Map.{StringMap}
use oauth2_token_exchange.Cache.{Duration}
use oauth2_token_exchange.Authz.Types.{AuthzDecision}
use oauth2_token_exchange.Authz.Service.{bare_token}
use oauth2_token_exchange.Transport.Gin.{
  Outgoing, HandlerFunc, error_json, status_unauthorized, status_internal, get_header, put_header,
}
use oauth2_token_exchange.Transport.Config.{HeaderKeys}

-- The domain's `AuthorizePAT`: a token, the time to live of what is cached, and the header keys.
abbrev pub Authorizer : Type 0 → Type 0
Authorizer S = String → Duration → StringMap → Act S AuthzDecision

-- `Check` of internal/app/authz/service.go, less its spans
unfoldable pub check :
    {S : Type 0} → Authorizer S → String → Duration → StringMap → Act S AuthzDecision
check authorize pat cache_ttl header_keys = do
  decision ← authorize pat cache_ttl header_keys
  pure decision

-- The `headerKeys` of `NewHandler`
unfoldable pub header_keys : HeaderKeys → StringMap
header_keys k =
    ("user_id", k.user_id)
    ∷ ("user_email", k.user_email)
    ∷ ("user_groups", k.user_groups)
    ∷ ("user_preferred_username", k.user_preferred_username)
    ∷ ("user_jwt", k.user_jwt)
    ∷ []

-- A handler, with the order in which Go ranges over a map.
pub record Handler (S : Type 0) : Type 0 where
  pub authorize : Authorizer S
  pub cache_ttl : Duration
  pub keys : StringMap
  pub canonical : String → String
  pub range : StringMap → StringMap

unfoldable pub put_headers : (String → String) → StringMap → Outgoing → Outgoing
unfolding put_header
put_headers canonical [] w = w
put_headers canonical ((k, v) ∷ m) w = put_headers canonical m (put_header canonical k v w)

module _ {S : Type 0} (h : Handler S) where
  abbrev pub answer : Outgoing → Result AuthzDecision → Outgoing
  answer w (err e) = record w {
    status = status_internal;
    content = error_json "internal server error";
  }
  answer w (ok decision) =
      if decision.allow
      then record (put_headers h.canonical (h.range decision.headers) w) { status = 200 }
      else record w { status = status_unauthorized; content = error_json decision.reason }

  -- What is made of the header that holds the token.
  abbrev pub check_header : String → Outgoing → Act S Outgoing
  check_header header w =
      if header == ""
      then pure (record w {
        status = status_unauthorized;
        content = error_json "missing authorization header";
      })
      else (do
        decision ← attempt (check h.authorize (bare_token header) h.cache_ttl h.keys)
        pure (answer w decision))

  -- `(*Handler).Check`
  unfoldable pub handle_check : HandlerFunc S
  unfolding check bare_token get_header put_headers
  handle_check r w =
      let header = get_header h.canonical r "Authorization" in
      check_header (if header == "" then get_header h.canonical r "authorization" else header) w
