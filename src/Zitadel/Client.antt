-- ===== src/Zitadel/Client.antt =====
-- internal/infra/zitadel/client.go: the client's settings, and what its methods share.
use oauth2_token_exchange.Common.{ℕ, String, ◌<>◌}
use oauth2_token_exchange.Go.Errors.{GoError, message}
use oauth2_token_exchange.Go.Strings.{trim_suffix}
use oauth2_token_exchange.Go.Format.{decimal}
use oauth2_token_exchange.Go.Time.{Rfc3339}
use oauth2_token_exchange.Http.{Network, Response}
use oauth2_token_exchange.Zitadel.Responses.{ListUsersResponse, CreateUserResponse}

pub record ZitadelClient : Type 0 where
  pub issuer : String
  pub client_id : String
  pub client_secret : String
  pub organization_id : String

unfoldable pub new_client : String → String → String → String → ZitadelClient
unfolding trim_suffix
new_client issuer client_id client_secret organization_id = record {
  issuer = trim_suffix issuer "/";
  client_id = client_id;
  client_secret = client_secret;
  organization_id = organization_id;
}

-- What the client uses from outside the repository: the network, calendar texts, and `%+v` of an
-- answer, which prints addresses.
pub record Outside (S : Type 0) : Type 0 where
  pub network : Network S
  pub calendar : Rfc3339
  pub show_users : ListUsersResponse → String
  pub show_created_user : CreateUserResponse → String

-- `http.StatusBadRequest`, `StatusNotFound`, `StatusConflict`
abbrev pub bad_request : ℕ
bad_request = 400

abbrev pub not_found : ℕ
not_found = 404

abbrev pub conflict : ℕ
conflict = 409

-- `fmt.Errorf("<what> failed with status %d: %s", resp.StatusCode(), bodyStr)`
unfoldable pub status_error : String → Response → GoError
unfolding decimal
status_error what resp =
    message (what <> " failed with status " <> decimal resp.status <> ": " <> resp.text)
