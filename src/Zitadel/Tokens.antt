-- ===== src/Zitadel/Tokens.antt =====
-- internal/infra/zitadel/client.go: `Exchange`, `ExchangeWithActor` and `GetUserInfo`.
use oauth2_token_exchange.Common.{String, ◌<>◌, Option, some, List, [], ◌∷◌, leb}
use oauth2_token_exchange.Go.Act.{Act, pure, wrapping, refuse_if, ◌>>=◌, ◌>>◌}
use oauth2_token_exchange.Go.Map.{StringMap}
use oauth2_token_exchange.Go.Url.{encode}
use oauth2_token_exchange.Http.{
  Response, form, request, get, post, with_auth_token, with_basic_auth, with_body,
  with_content_type, RequestOption,
}
use oauth2_token_exchange.Zitadel.Types.{
  UserInfo, TokenResponse, no_user_info, decode_user_info, no_token_response, decode_token_response,
}
use oauth2_token_exchange.Zitadel.Client.{ZitadelClient, Outside, bad_request, status_error}

-- `url.Values` after the calls of `form.Set`, in their order
unfoldable pub exchange_form : ZitadelClient → String → StringMap
exchange_form c pat =
    ("grant_type", "urn:ietf:params:oauth:grant-type:token-exchange")
    ∷ ("subject_token", pat)
    ∷ ("subject_token_type", "urn:ietf:params:oauth:token-type:access_token")
    ∷ ("requested_token_type", "urn:ietf:params:oauth:token-type:access_token")
    ∷ ("scope", "openid")
    ∷ ("audience", c.client_id)
    ∷ []

unfoldable pub actor_form : ZitadelClient → String → String → String → StringMap
actor_form c subject_token subject_token_type actor_token =
    ("grant_type", "urn:ietf:params:oauth:grant-type:token-exchange")
    ∷ ("subject_token", subject_token)
    ∷ ("subject_token_type", subject_token_type)
    ∷ ("actor_token", actor_token)
    ∷ ("actor_token_type", "urn:ietf:params:oauth:token-type:access_token")
    ∷ ("requested_token_type", "urn:ietf:params:oauth:token-type:access_token")
    ∷ ("scope", "openid email profile")
    ∷ ("audience", c.client_id)
    ∷ []

module _ {S : Type 0} (o : Outside S) (c : ZitadelClient) where
  abbrev pub token_options : StringMap → List RequestOption
  token_options values =
      with_basic_auth c.client_id c.client_secret
      ∷ with_body (form (encode values))
      ∷ with_content_type "application/x-www-form-urlencoded"
      ∷ []

  unfoldable pub exchange : String → Act S (Option TokenResponse)
  unfolding exchange_form request
  exchange pat = do
    (resp, token) ← wrapping "token exchange request failed" (
        post o.network (c.issuer <> "/oauth/v2/token") (token_options (exchange_form c pat))
          decode_token_response no_token_response)
    refuse_if (leb bad_request resp.status) (status_error "token exchange" resp)
    pure (some token)

  -- The request of `ExchangeWithActor`.
  abbrev pub send_actor : String → String → String → Act S (Response × TokenResponse)
  send_actor subject_token subject_token_type actor_token =
      post o.network (c.issuer <> "/oauth/v2/token")
        (token_options (actor_form c subject_token subject_token_type actor_token))
        decode_token_response no_token_response

  abbrev pub actor_answer : Response × TokenResponse → Act S (Option TokenResponse)
  actor_answer (resp, token) = do
    refuse_if (leb bad_request resp.status) (status_error "token exchange with actor" resp)
    pure (some token)

  unfoldable pub exchange_with_actor : String → String → String → Act S (Option TokenResponse)
  unfolding actor_form request
  exchange_with_actor subject_token subject_token_type actor_token = do
    answer ←
        wrapping "token exchange with actor failed"
          (send_actor subject_token subject_token_type actor_token)
    actor_answer answer

  -- The request of `GetUserInfo`.
  abbrev pub send_user_info : String → Act S (Response × UserInfo)
  send_user_info pat =
      get o.network (c.issuer <> "/oidc/v1/userinfo") (with_auth_token pat ∷ []) decode_user_info
        no_user_info

  abbrev pub user_info_answer : Response × UserInfo → Act S (Option UserInfo)
  user_info_answer (resp, info) = do
    refuse_if (leb bad_request resp.status) (status_error "get userinfo" resp)
    pure (some info)

  unfoldable pub get_user_info : String → Act S (Option UserInfo)
  unfolding request
  get_user_info pat = do
    answer ← wrapping "get userinfo failed" (send_user_info pat)
    user_info_answer answer
