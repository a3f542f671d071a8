-- ===== src/Zitadel/Types.antt =====
-- internal/infra/zitadel/types.go and the types of client.go: what is decoded from answers, and the
-- requests with their JSON.
use oauth2_token_exchange.Common.{String, ◌<>◌, [], ◌∷◌}
use oauth2_token_exchange.Common.Int.{ℤ, pos}
use oauth2_token_exchange.Go.Time.{Time}
use oauth2_token_exchange.Go.Json.Decode.{Decoder, into_text, into_int64, field, into_struct}

pub record UserInfo : Type 0 where
  pub sub : String
  pub username : String
  pub email : String
  pub name : String

pub record MachineUser : Type 0 where
  pub id : String
  pub username : String
  pub name : String
  pub description : String

pub record PersonalAccessToken : Type 0 where
  pub id : String
  pub user_id : String
  pub expiration_date : Time
  pub created_at : Time

pub record TokenResponse : Type 0 where
  pub access_token : String
  pub token_type : String
  pub issued_token_type : String
  pub refresh_token : String
  pub id_token : String
  pub expires_in : ℤ
  pub scope : String

abbrev pub at : String → String → String
at type name = "Go struct field " <> type <> "." <> name

abbrev pub no_user_info : UserInfo
no_user_info = record { sub = ""; username = ""; email = ""; name = "" }

unfoldable pub decode_user_info : Decoder UserInfo
unfolding into_struct
decode_user_info = into_struct "zitadel.UserInfo" (
    field "sub" (into_text (at "UserInfo" "sub")) (λ s. s.sub) (λ a s. record s { sub = a })
    ∷ field "preferred_username" (into_text (at "UserInfo" "preferred_username")) (λ s. s.username)
        (λ a s. record s { username = a })
    ∷ field "email" (into_text (at "UserInfo" "email")) (λ s. s.email)
        (λ a s. record s { email = a })
    ∷ field "name" (into_text (at "UserInfo" "name")) (λ s. s.name) (λ a s. record s { name = a })
    ∷ [])

abbrev pub no_token_response : TokenResponse
no_token_response = record {
  access_token = "";
  token_type = "";
  issued_token_type = "";
  refresh_token = "";
  id_token = "";
  expires_in = pos 0;
  scope = "";
}

unfoldable pub decode_token_response : Decoder TokenResponse
unfolding into_struct
decode_token_response = into_struct "zitadel.TokenResponse" (
    field "access_token" (into_text (at "TokenResponse" "access_token")) (λ s. s.access_token)
      (λ a s. record s { access_token = a })
    ∷ field "token_type" (into_text (at "TokenResponse" "token_type")) (λ s. s.token_type)
        (λ a s. record s { token_type = a })
    ∷ field "issued_token_type" (into_text (at "TokenResponse" "issued_token_type"))
        (λ s. s.issued_token_type) (λ a s. record s { issued_token_type = a })
    ∷ field "refresh_token" (into_text (at "TokenResponse" "refresh_token")) (λ s. s.refresh_token)
        (λ a s. record s { refresh_token = a })
    ∷ field "id_token" (into_text (at "TokenResponse" "id_token")) (λ s. s.id_token)
        (λ a s. record s { id_token = a })
    ∷ field "expires_in" (into_int64 (at "TokenResponse" "expires_in")) (λ s. s.expires_in)
        (λ a s. record s { expires_in = a })
    ∷ field "scope" (into_text (at "TokenResponse" "scope")) (λ s. s.scope)
        (λ a s. record s { scope = a })
    ∷ [])
