-- ===== src/Zitadel/Responses.antt =====
-- internal/infra/zitadel/types.go: the answers of the user and token services.
use oauth2_token_exchange.Common.{
  ℕ, String, Bool, false, Option, none, some, List, [], ◌∷◌, ◌==◌, ◌||◌, if◌then◌else◌,
}
use oauth2_token_exchange.Go.Errors.{GoError, Result, ok, err}
use oauth2_token_exchange.Go.Time.{Time, zero_time, Rfc3339}
use oauth2_token_exchange.Go.Json.{Json, null, text}
use oauth2_token_exchange.Go.Json.Decode.{
  Decoder, type_error, into_text, into_bool, into_uint64, into_pointer, into_list, field,
  into_struct,
}
use oauth2_token_exchange.Zitadel.Types.{at}

-- `RFC3339Time.UnmarshalJSON`
unfoldable pub unmarshal_time : Rfc3339 → Json → Result Time
unmarshal_time calendar null = ok zero_time
unmarshal_time calendar (text s) = if s == "" || s == "null" then ok zero_time else calendar.parse s
unmarshal_time calendar v = err (type_error "Go value" "string" v)

abbrev stored : Time → Result Time → Time × Option GoError
stored old (ok t) = (t, none)
stored old (err e) = (old, some e)

abbrev pub into_time : Rfc3339 → Decoder Time
into_time calendar v old = stored old (unmarshal_time calendar v)

-- A `*RFC3339Time`
abbrev pub into_time_pointer : Rfc3339 → Decoder (Option Time)
into_time_pointer calendar = into_pointer zero_time (into_time calendar)

pub record MachineUserResponse : Type 0 where
  pub name : String
  pub description : String
  pub has_secret : Bool
  pub access_token_type : String

abbrev no_machine : MachineUserResponse
no_machine = record { name = ""; description = ""; has_secret = false; access_token_type = "" }

abbrev decode_machine : Decoder MachineUserResponse
decode_machine = into_struct "zitadel.MachineUserResponse" (
    field "name" (into_text (at "MachineUserResponse" "name")) (λ s. s.name)
      (λ a s. record s { name = a })
    ∷ field "description" (into_text (at "MachineUserResponse" "description")) (λ s. s.description)
        (λ a s. record s { description = a })
    ∷ field "hasSecret" (into_bool (at "MachineUserResponse" "hasSecret")) (λ s. s.has_secret)
        (λ a s. record s { has_secret = a })
    ∷ field "accessTokenType" (into_text (at "MachineUserResponse" "accessTokenType"))
        (λ s. s.access_token_type) (λ a s. record s { access_token_type = a })
    ∷ [])

pub record User : Type 0 where
  pub user_id : String
  pub state : String
  pub username : String
  pub login_names : List String
  pub preferred_login_name : String
  pub machine : Option MachineUserResponse

abbrev no_user : User
no_user = record {
  user_id = "";
  state = "";
  username = "";
  login_names = [];
  preferred_login_name = "";
  machine = none;
}

abbrev decode_user : Decoder User
decode_user = into_struct "zitadel.User" (
    field "userId" (into_text (at "User" "userId")) (λ s. s.user_id)
      (λ a s. record s { user_id = a })
    ∷ field "state" (into_text (at "User" "state")) (λ s. s.state) (λ a s. record s { state = a })
    ∷ field "username" (into_text (at "User" "username")) (λ s. s.username)
        (λ a s. record s { username = a })
    ∷ field "loginNames"
        (into_list "" (into_text (at "User" "loginNames")) (at "User" "loginNames") "[]string")
        (λ s. s.login_names) (λ a s. record s { login_names = a })
    ∷ field "preferredLoginName" (into_text (at "User" "preferredLoginName"))
        (λ s. s.preferred_login_name) (λ a s. record s { preferred_login_name = a })
    ∷ field "machine" (into_pointer no_machine decode_machine) (λ s. s.machine)
        (λ a s. record s { machine = a })
    ∷ [])

pub record ListDetails : Type 0 where
  pub total_result : String
  pub processed_sequence : ℕ
  pub timestamp : Option Time

abbrev no_details : ListDetails
no_details = record { total_result = ""; processed_sequence = 0; timestamp = none }

abbrev decode_details : Rfc3339 → Decoder ListDetails
decode_details calendar = into_struct "zitadel.ListDetails" (
    field "totalResult" (into_text (at "ListDetails" "totalResult")) (λ s. s.total_result)
      (λ a s. record s { total_result = a })
    ∷ field "processedSequence" (into_uint64 (at "ListDetails" "processedSequence"))
        (λ s. s.processed_sequence) (λ a s. record s { processed_sequence = a })
    ∷ field "timestamp" (into_time_pointer calendar) (λ s. s.timestamp)
        (λ a s. record s { timestamp = a })
    ∷ [])

-- `result` is a slice of pointers, which a JSON `null` leaves nil.
pub record ListUsersResponse : Type 0 where
  pub details : Option ListDetails
  pub sorting_column : String
  pub result : List (Option User)

abbrev pub no_users : ListUsersResponse
no_users = record { details = none; sorting_column = ""; result = [] }

unfoldable pub decode_users : Rfc3339 → Decoder ListUsersResponse
unfolding into_struct into_list
decode_users calendar = into_struct "zitadel.ListUsersResponse" (
    field "details" (into_pointer no_details (decode_details calendar)) (λ s. s.details)
      (λ a s. record s { details = a })
    ∷ field "sortingColumn" (into_text (at "ListUsersResponse" "sortingColumn"))
        (λ s. s.sorting_column) (λ a s. record s { sorting_column = a })
    ∷ field "result"
        (into_list none (into_pointer no_user decode_user) (at "ListUsersResponse" "result")
          "[]*zitadel.User")
        (λ s. s.result) (λ a s. record s { result = a })
    ∷ [])

pub record CreateUserResponse : Type 0 where
  pub id : String
  pub creation_date : Option Time
  pub email_code : Option String
  pub phone_code : Option String

abbrev pub no_created_user : CreateUserResponse
no_created_user = record { id = ""; creation_date = none; email_code = none; phone_code = none }

unfoldable pub decode_created_user : Rfc3339 → Decoder CreateUserResponse
unfolding into_struct
decode_created_user calendar = into_struct "zitadel.CreateUserResponse" (
    field "id" (into_text (at "CreateUserResponse" "id")) (λ s. s.id) (λ a s. record s { id = a })
    ∷ field "creationDate" (into_time_pointer calendar) (λ s. s.creation_date)
        (λ a s. record s { creation_date = a })
    ∷ field "emailCode" (into_pointer "" (into_text (at "CreateUserResponse" "emailCode")))
        (λ s. s.email_code) (λ a s. record s { email_code = a })
    ∷ field "phoneCode" (into_pointer "" (into_text (at "CreateUserResponse" "phoneCode")))
        (λ s. s.phone_code) (λ a s. record s { phone_code = a })
    ∷ [])
