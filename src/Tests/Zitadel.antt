-- ===== src/Tests/Zitadel.antt =====
-- Calls of the client of ZITADEL, over the stand-in for the network.
use oauth2_token_exchange.Zitadel.PatResponses.{
  AddPersonalAccessTokenResponse, decode_added, no_added,
}
use oauth2_token_exchange.Zitadel.Responses.{CreateUserResponse, decode_created_user, decode_users}
use oauth2_token_exchange.Http.{
  Response, with_auth_token, with_basic_auth, with_body, with_content_type,
}
use oauth2_token_exchange.Common.{String, Option, some, none, [], ◌≡◌, ◌≢◌, refl}
use oauth2_token_exchange.Go.Act.{returned}
use oauth2_token_exchange.Go.Time.{zero_time}
use oauth2_token_exchange.Zitadel.Types.{
  UserInfo, TokenResponse, MachineUser, PersonalAccessToken, no_user_info, decode_user_info,
  no_token_response, decode_token_response,
}
use oauth2_token_exchange.Zitadel.Tokens.{get_user_info, exchange_with_actor}
use oauth2_token_exchange.Zitadel.Users.{get_machine_user_by_username, create_machine_user}
use oauth2_token_exchange.Zitadel.Pats.{add_personal_access_token}
use oauth2_token_exchange.Zitadel.Created.{
  IsReply, IsCreated, create_user_request, create_machine_user_returned,
}
use oauth2_token_exchange.Zitadel.Added.{
  add_token_request, creation_time, add_personal_access_token_returned,
}
use oauth2_token_exchange.Zitadel.Accepted.{
  IsAnswered, user_info_request, actor_request, get_user_info-IsAnswered,
  exchange_with_actor-IsAnswered,
}
use oauth2_token_exchange.Tests.Memory.{the_response}
use oauth2_token_exchange.Tests.Network.{outside, settings}

missing_run : (get_machine_user_by_username outside settings "admin" "ada" []).0 ≡ returned none
unfolding get_machine_user_by_username with_body with_auth_token decode_users
missing_run = refl

abbrev the_user : UserInfo
the_user = record { sub = "1"; username = "ada"; email = ""; name = "" }

get_user_info-IsAnswered_example :
    (u : UserInfo) × (some the_user ≡ some u)
    × IsAnswered outside settings decode_user_info no_user_info
        (user_info_request outside settings "secret" [])
        []
        u
unfolding get_user_info with_auth_token decode_user_info
get_user_info-IsAnswered_example =
    get_user_info-IsAnswered outside settings "secret" [] (some the_user) refl

exchange_with_actor-IsAnswered_example :
    (t : TokenResponse) × (some the_response ≡ some t)
    × IsAnswered outside settings decode_token_response no_token_response
        (actor_request outside settings "ada" "id" "admin" [])
        []
        t
unfolding exchange_with_actor with_content_type with_body with_basic_auth decode_token_response
exchange_with_actor-IsAnswered_example =
    exchange_with_actor-IsAnswered outside settings "ada" "id" "admin" [] (some the_response) refl

abbrev the_machine : MachineUser
the_machine = record { id = "m1"; username = "ada"; name = "Ada"; description = "ada@example.org" }

create_machine_user_returned_example :
    (u : MachineUser) × (some the_machine ≡ some u)
    × (u.id ≢ "")
    × ((resp : Response) × (result : CreateUserResponse) × IsReply outside settings
          (create_user_request outside settings "admin" "ada" "Ada" "ada@example.org" [])
          []
          resp
          result
        × IsCreated outside settings "admin" "ada" "Ada" "ada@example.org" [] resp result u)
unfolding create_machine_user with_body with_auth_token decode_created_user
create_machine_user_returned_example =
    create_machine_user_returned outside settings "admin" "ada" "Ada" "ada@example.org" []
      (some the_machine) refl

abbrev the_token : PersonalAccessToken
the_token = record {
  id = "t1";
  user_id = "m1";
  expiration_date = zero_time;
  created_at = zero_time;
}

abbrev the_addition : Option PersonalAccessToken × String
the_addition = (some the_token, "new")

add_personal_access_token_returned_example :
    (result : AddPersonalAccessTokenResponse) × IsAnswered outside settings
      (decode_added outside.calendar)
      no_added
      (add_token_request outside settings "admin" "m1" zero_time [])
      []
      result
    × (the_addition ≡ (
      some (record {
        id = result.token_id;
        user_id = "m1";
        expiration_date = zero_time;
        created_at = creation_time result.creation_date;
      }),
      result.token,
    ))
unfolding add_personal_access_token with_body with_auth_token decode_added
add_personal_access_token_returned_example =
    add_personal_access_token_returned outside settings "admin" "m1" zero_time [] the_addition refl
