-- ===== src/Zitadel/Accepted.antt =====
-- What ZITADEL has answered when the client returns user information or an exchanged token: the
-- requests are written out here, field by field.
use oauth2_token_exchange.Common.{
  String, ◌<>◌, ◌<◌, Option, some, none, [], ◌∷◌, ◌==◌, leb, ◌≡◌, inl, inr, sym, subst, ◌∙◌, arith,
  Bool-cases, if◌then◌else◌,
}
use oauth2_token_exchange.Go.Act.{returned, wrapping}
use oauth2_token_exchange.Go.Act.Laws.{
  returned-injective, >>=-eq-returned, wrap_reply-eq-returned, refuse_if_passed,
}
use oauth2_token_exchange.Go.Map.{StringMap}
use oauth2_token_exchange.Go.Url.{encode}
use oauth2_token_exchange.Go.Json.{Json}
use oauth2_token_exchange.Go.Json.Decode.{Decoder}
use oauth2_token_exchange.Http.{
  Request, Response, empty, form, json, readable, prepared, new_request, apply_options,
  with_auth_token, with_basic_auth, with_body, with_content_type,
}
use oauth2_token_exchange.Http.Laws.{
  request_returned, inject_tracing_headers_lem, with_propagated, IsRead,
}
use oauth2_token_exchange.Zitadel.Types.{
  UserInfo, TokenResponse, no_user_info, decode_user_info, no_token_response, decode_token_response,
}
use oauth2_token_exchange.Zitadel.Client.{ZitadelClient, Outside, bad_request}
use oauth2_token_exchange.Zitadel.Tokens.{
  actor_form, token_options, send_actor, actor_answer, exchange_with_actor, send_user_info,
  user_info_answer, get_user_info,
}

module _ {S : Type 0} (o : Outside S) (c : ZitadelClient) where
  -- The network has answered the request with a status below 400, and the value is what its document
  -- decodes to, or the value before if it has none.
  abbrev pub IsAnswered : {A : Type 0} → Decoder A → A → Request → S → A → Type 0
  IsAnswered decode target r st value =
      (resp : Response) × ((o.network.send r (readable decode target) st).0 ≡ returned resp)
      × (resp.status < 400)
      × IsRead decode target resp.document value

  -- The headers of a request in a world, with the fields of the propagator.
  abbrev headers_in : S → String → StringMap
  headers_in st content_type =
      with_propagated o.network.canonical (o.network.propagated st)
        (("Content-Type", content_type) ∷ ("Accept", "application/json") ∷ [])

  -- The request for the user information of a token, in a world.
  abbrev pub user_info_request : String → S → Request
  user_info_request pat st = record {
    method = "GET";
    url = c.issuer <> "/oidc/v1/userinfo";
    token = some pat;
    user_info = none;
    headers = headers_in st "application/json";
    body = empty;
  }

  -- The request for an exchange, in a world.
  abbrev pub actor_request : String → String → String → S → Request
  actor_request subject_token subject_token_type actor_token st = record {
    method = "POST";
    url = c.issuer <> "/oauth/v2/token";
    token = none;
    user_info = if c.client_id == "" then none else some (c.client_id, c.client_secret);
    headers = headers_in st "application/x-www-form-urlencoded";
    body = form (
        encode (
          ("grant_type", "urn:ietf:params:oauth:grant-type:token-exchange")
          ∷ ("subject_token", subject_token)
          ∷ ("subject_token_type", subject_token_type)
          ∷ ("actor_token", actor_token)
          ∷ ("actor_token_type", "urn:ietf:params:oauth:token-type:access_token")
          ∷ ("requested_token_type", "urn:ietf:params:oauth:token-type:access_token")
          ∷ ("scope", "openid email profile")
          ∷ ("audience", c.client_id)
          ∷ []));
  }

  -- A POST request to a path of the issuer, with a bearer token and a JSON body, in a world.
  abbrev pub json_post : String → String → Json → S → Request
  json_post path token document st = record {
    method = "POST";
    url = c.issuer <> path;
    token = some token;
    user_info = none;
    headers = headers_in st "application/json";
    body = json document;
  }

  pub prepared-json_post :
      (path token : String) (document : Json) (st : S)
      → prepared o.network "POST"
          (c.issuer <> path)
          (with_auth_token token ∷ with_body (json document) ∷ [])
          st
        ≡ json_post path token document st
  unfolding with_auth_token with_body new_request apply_options
  prepared-json_post path token document st = inject_tracing_headers_lem o.network.canonical _ _

  prepared-user_info_request :
      (pat : String) (st : S)
      → prepared o.network "GET" (c.issuer <> "/oidc/v1/userinfo") (with_auth_token pat ∷ []) st
        ≡ user_info_request pat st
  unfolding with_auth_token new_request apply_options
  prepared-user_info_request pat st = inject_tracing_headers_lem o.network.canonical _ _

  prepared-actor_request :
      (subject_token subject_token_type actor_token : String) (st : S)
      → prepared o.network "POST"
          (c.issuer <> "/oauth/v2/token")
          (token_options o c (actor_form c subject_token subject_token_type actor_token))
          st
        ≡ actor_request subject_token subject_token_type actor_token st
  unfolding with_basic_auth with_body with_content_type new_request apply_options actor_form
  prepared-actor_request subject_token subject_token_type actor_token st =
      inject_tracing_headers_lem o.network.canonical _ _ ∙ elim (Bool-cases (c.client_id == "")) [
        | inl public ↦ rw public
        | inr confidential ↦ rw confidential
      ]

  -- User information is returned only if the network answered, with a status below 400, the GET
  -- request for the issuer's user information with the token as its bearer token; and it is what
  -- the document of that answer decodes to, or empty if there is none.
  pub get_user_info-IsAnswered :
      (pat : String) (st : S) (info : Option UserInfo)
      → (get_user_info o c pat st).0 ≡ returned info
      → (u : UserInfo) × (info ≡ some u)
        × IsAnswered decode_user_info no_user_info (user_info_request pat st) st u
  unfolding get_user_info
  get_user_info-IsAnswered pat st info h =
      let ((resp, u), got, rest) =
        >>=-eq-returned (wrapping "get userinfo failed" (send_user_info o c pat))
          (user_info_answer o c) st h in
      let (good, made) = refuse_if_passed (leb bad_request resp.status) _ _ _ rest in
      let (sent, read) =
        request_returned o.network "GET" (c.issuer <> "/oidc/v1/userinfo")
          (with_auth_token pat ∷ []) decode_user_info no_user_info st _
          (wrap_reply-eq-returned _ _ got) in
      (
        u,
        sym (returned-injective _ _ made),
        (
          resp,
          subst
              (λ (r : Request).
                (o.network.send r (readable decode_user_info no_user_info) st).0 ≡ returned resp)
              (prepared-user_info_request pat st) sent,
          ground arith,
          read,
        ),
      )

  -- An exchanged token is returned only if the network answered, with a status below 400, the
  -- POST request for the issuer's tokens with the client's id and secret, unless the id is empty,
  -- and the form of an exchange of the subject token, with the actor token; and it is what the
  -- document of that answer decodes to, or empty if there is none.
  pub exchange_with_actor-IsAnswered :
      (subject_token subject_token_type actor_token : String) (st : S)
      (token : Option TokenResponse)
      → (exchange_with_actor o c subject_token subject_token_type actor_token st).0 ≡ returned token
      → (t : TokenResponse) × (token ≡ some t)
        × IsAnswered decode_token_response no_token_response
            (actor_request subject_token subject_token_type actor_token st)
            st
            t
  unfolding exchange_with_actor
  exchange_with_actor-IsAnswered subject_token subject_token_type actor_token st token h =
      let ((resp, t), got, rest) =
        >>=-eq-returned
          (wrapping "token exchange with actor failed"
            (send_actor o c subject_token subject_token_type actor_token))
          (actor_answer o c) st h in
      let (good, made) = refuse_if_passed (leb bad_request resp.status) _ _ _ rest in
      let (sent, read) =
        request_returned o.network "POST" (c.issuer <> "/oauth/v2/token")
          (token_options o c (actor_form c subject_token subject_token_type actor_token))
          decode_token_response no_token_response st _ (wrap_reply-eq-returned _ _ got) in
      (
        t,
        sym (returned-injective _ _ made),
        (
          resp,
          subst
              (λ (r : Request).
                (o.network.send r (readable decode_token_response no_token_response) st).0
                ≡ returned resp)
              (prepared-actor_request subject_token subject_token_type actor_token st) sent,
          ground arith,
          read,
        ),
      )
