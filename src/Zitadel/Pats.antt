-- ===== src/Zitadel/Pats.antt =====
-- internal/infra/zitadel/client.go: adding, listing and removing personal access tokens.
use oauth2_token_exchange.Common.{
  ℕ, String, ◌<>◌, Option, none, some, List, [], ◌∷◌, leb, ◌==◌, if◌then◌else◌, false,
}
use oauth2_token_exchange.Go.Act.{Act, pure, panic, wrapping, refuse_if, ◌>>=◌, ◌>>◌}
use oauth2_token_exchange.Go.Time.{Time, zero_time}
use oauth2_token_exchange.Http.{Response, json, request, post, delete, with_auth_token, with_body}
use oauth2_token_exchange.Zitadel.Types.{PersonalAccessToken}
use oauth2_token_exchange.Zitadel.PatResponses.{
  AddPersonalAccessTokenResponse, no_added, decode_added, PersonalAccessTokenResponse, no_tokens,
  decode_tokens, no_removed, decode_removed,
}
use oauth2_token_exchange.Zitadel.Requests.{encode_add_token, encode_list_tokens}
use oauth2_token_exchange.Zitadel.Client.{ZitadelClient, Outside, bad_request, status_error}
use oauth2_token_exchange.Zitadel.Users.{nil_dereference}

abbrev page_limit : ℕ
page_limit = 100

abbrev or_zero_time : Option Time → Time
or_zero_time none = zero_time
or_zero_time (some t) = t

unfoldable pub listed_token : String → PersonalAccessTokenResponse → PersonalAccessToken
listed_token user_id pat = record {
  id = pat.id;
  user_id = if pat.user_id == "" then user_id else pat.user_id;
  expiration_date = or_zero_time pat.expiration_date;
  created_at = or_zero_time pat.creation_date;
}

module _ {S : Type 0} where
  -- The loop over the answer. Reading a nil element panics.
  unfoldable pub listed_tokens :
      String → List (Option PersonalAccessTokenResponse) → Act S (List (Option PersonalAccessToken))
  unfolding listed_token
  listed_tokens user_id [] = pure []
  listed_tokens user_id (none ∷ rest) = panic nil_dereference
  listed_tokens user_id (some pat ∷ rest) = do
    pats ← listed_tokens user_id rest
    pure (some (listed_token user_id pat) ∷ pats)

module _ {S : Type 0} (o : Outside S) (c : ZitadelClient) where
  abbrev pub send_token : String → String → Time → Act S (Response × AddPersonalAccessTokenResponse)
  send_token admin_pat user_id expiration_date = wrapping "add personal access token failed" (
      post o.network (c.issuer <> "/v2/users/" <> user_id <> "/pats")
        (with_auth_token admin_pat
          ∷ with_body (
              json (
                encode_add_token o.calendar
                  (record { user_id = user_id; expiration_date = some expiration_date })))
          ∷ [])
        (decode_added o.calendar) no_added)

  -- What is made of the answer.
  abbrev pub new_token :
      String
      → Time
      → Response × AddPersonalAccessTokenResponse
      → Act S (Option PersonalAccessToken × String)
  new_token user_id expiration_date (resp, result) = do
    refuse_if (leb bad_request resp.status) (status_error "add personal access token" resp)
    pure (
      some (record {
        id = result.token_id;
        user_id = user_id;
        expiration_date = expiration_date;
        created_at = or_zero_time result.creation_date;
      }),
      result.token,
    )

  unfoldable pub add_personal_access_token :
      String → String → Time → Act S (Option PersonalAccessToken × String)
  unfolding request
  add_personal_access_token admin_pat user_id expiration_date = do
    answer ← send_token admin_pat user_id expiration_date
    new_token user_id expiration_date answer

  unfoldable pub list_personal_access_tokens :
      String → String → Act S (List (Option PersonalAccessToken))
  unfolding listed_tokens request
  list_personal_access_tokens admin_pat user_id = do
    (resp, result) ← wrapping "list personal access tokens failed" (
        post o.network (c.issuer <> "/v2/users/pats/search")
          (with_auth_token admin_pat
            ∷ with_body (
                json (
                  encode_list_tokens (record {
                    pagination = some (record { offset = 0; limit = page_limit; asc = false });
                    sorting_column = "";
                    filters = record { user_id_filter = some (record { id = user_id }) } ∷ [];
                  })))
            ∷ [])
          (decode_tokens o.calendar) no_tokens)
    refuse_if (leb bad_request resp.status) (status_error "list personal access tokens" resp)
    listed_tokens user_id result.result

  unfoldable pub remove_personal_access_token : String → String → String → Act S (Unit {0})
  unfolding request
  remove_personal_access_token admin_pat user_id pat_id = do
    (resp, _) ← wrapping "remove personal access token failed" (
        delete o.network (c.issuer <> "/v2/users/" <> user_id <> "/pats/" <> pat_id)
          (with_auth_token admin_pat ∷ []) (decode_removed o.calendar) no_removed)
    refuse_if (leb bad_request resp.status) (status_error "remove personal access token" resp)
