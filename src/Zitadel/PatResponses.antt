-- ===== src/Zitadel/PatResponses.antt =====
-- internal/infra/zitadel/types.go: the answers of the token management.
use oauth2_token_exchange.Common.{String, Option, none, List, [], ◌∷◌}
use oauth2_token_exchange.Go.Time.{Time, Rfc3339}
use oauth2_token_exchange.Go.Json.Decode.{
  Decoder, into_text, into_pointer, into_list, field, into_struct,
}
use oauth2_token_exchange.Zitadel.Types.{at}
use oauth2_token_exchange.Zitadel.Responses.{into_time_pointer}

pub record AddPersonalAccessTokenResponse : Type 0 where
  pub creation_date : Option Time
  pub token_id : String
  pub token : String

abbrev pub no_added : AddPersonalAccessTokenResponse
no_added = record { creation_date = none; token_id = ""; token = "" }

unfoldable pub decode_added : Rfc3339 → Decoder AddPersonalAccessTokenResponse
unfolding into_struct
decode_added calendar = into_struct "zitadel.AddPersonalAccessTokenResponse" (
    field "creationDate" (into_time_pointer calendar) (λ s. s.creation_date)
      (λ a s. record s { creation_date = a })
    ∷ field "tokenId" (into_text (at "AddPersonalAccessTokenResponse" "tokenId")) (λ s. s.token_id)
        (λ a s. record s { token_id = a })
    ∷ field "token" (into_text (at "AddPersonalAccessTokenResponse" "token")) (λ s. s.token)
        (λ a s. record s { token = a })
    ∷ [])

pub record PersonalAccessTokenResponse : Type 0 where
  pub creation_date : Option Time
  pub change_date : Option Time
  pub id : String
  pub user_id : String
  pub organization_id : String
  pub expiration_date : Option Time

abbrev pub no_listed : PersonalAccessTokenResponse
no_listed = record {
  creation_date = none;
  change_date = none;
  id = "";
  user_id = "";
  organization_id = "";
  expiration_date = none;
}

abbrev decode_listed : Rfc3339 → Decoder PersonalAccessTokenResponse
decode_listed calendar = into_struct "zitadel.PersonalAccessTokenResponse" (
    field "creationDate" (into_time_pointer calendar) (λ s. s.creation_date)
      (λ a s. record s { creation_date = a })
    ∷ field "changeDate" (into_time_pointer calendar) (λ s. s.change_date)
        (λ a s. record s { change_date = a })
    ∷ field "id" (into_text (at "PersonalAccessTokenResponse" "id")) (λ s. s.id)
        (λ a s. record s { id = a })
    ∷ field "userId" (into_text (at "PersonalAccessTokenResponse" "userId")) (λ s. s.user_id)
        (λ a s. record s { user_id = a })
    ∷ field "organizationId" (into_text (at "PersonalAccessTokenResponse" "organizationId"))
        (λ s. s.organization_id) (λ a s. record s { organization_id = a })
    ∷ field "expirationDate" (into_time_pointer calendar) (λ s. s.expiration_date)
        (λ a s. record s { expiration_date = a })
    ∷ [])

pub record PaginationResponse : Type 0 where
  pub total_result : String
  pub applied_limit : String

abbrev no_pagination : PaginationResponse
no_pagination = record { total_result = ""; applied_limit = "" }

abbrev decode_pagination : Decoder PaginationResponse
decode_pagination = into_struct "zitadel.PaginationResponse" (
    field "totalResult" (into_text (at "PaginationResponse" "totalResult")) (λ s. s.total_result)
      (λ a s. record s { total_result = a })
    ∷ field "appliedLimit" (into_text (at "PaginationResponse" "appliedLimit"))
        (λ s. s.applied_limit) (λ a s. record s { applied_limit = a })
    ∷ [])

-- `result` is a slice of pointers, which a JSON `null` leaves nil.
pub record ListPersonalAccessTokensResponse : Type 0 where
  pub pagination : Option PaginationResponse
  pub result : List (Option PersonalAccessTokenResponse)

abbrev pub no_tokens : ListPersonalAccessTokensResponse
no_tokens = record { pagination = none; result = [] }

unfoldable pub decode_tokens : Rfc3339 → Decoder ListPersonalAccessTokensResponse
unfolding into_struct into_list
decode_tokens calendar = into_struct "zitadel.ListPersonalAccessTokensResponse" (
    field "pagination" (into_pointer no_pagination decode_pagination) (λ s. s.pagination)
      (λ a s. record s { pagination = a })
    ∷ field "result"
        (into_list none (into_pointer no_listed (decode_listed calendar))
          (at "ListPersonalAccessTokensResponse" "result") "[]*zitadel.PersonalAccessTokenResponse")
        (λ s. s.result) (λ a s. record s { result = a })
    ∷ [])

pub record RemovePersonalAccessTokenResponse : Type 0 where
  pub deletion_date : Option Time

abbrev pub no_removed : RemovePersonalAccessTokenResponse
no_removed = record { deletion_date = none }

unfoldable pub decode_removed : Rfc3339 → Decoder RemovePersonalAccessTokenResponse
unfolding into_struct
decode_removed calendar = into_struct "zitadel.RemovePersonalAccessTokenResponse" (
    field "deletionDate" (into_time_pointer calendar) (λ s. s.deletion_date)
      (λ a s. record s { deletion_date = a })
    ∷ [])
