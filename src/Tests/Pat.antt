-- ===== src/Tests/Pat.antt =====
-- Calls of the token service and of its RPC handler, over the stand-in for the network.
use oauth2_token_exchange.Pat.Handler.Deletion.{
  delete_pat_removed, delete_pat_no_machine_user, delete_pat_removal_failed,
}
use oauth2_token_exchange.Zitadel.PatResponses.{decode_added}
use oauth2_token_exchange.Zitadel.Pats.{add_personal_access_token}
use oauth2_token_exchange.Zitadel.Responses.{decode_created_user, decode_users}
use oauth2_token_exchange.Http.{with_auth_token, with_body}
use oauth2_token_exchange.Zitadel.Users.{create_machine_user, get_machine_user_by_username}
use oauth2_token_exchange.Common.Int.{pos, negsuc, wrap64, ◌+ℤ◌, ◌-ℤ◌}
use oauth2_token_exchange.Common.{true, false, some, [], ◌∷◌, ◌≡◌, ◌≢◌, refl, arith}
use oauth2_token_exchange.Go.Errors.{sentinel, message, machine_user_not_found}
use oauth2_token_exchange.Go.Act.{Act, returned, failed}
use oauth2_token_exchange.Go.Map.{StringMap, get}
use oauth2_token_exchange.Go.Time.{before, of_unix, zero_time}
use oauth2_token_exchange.Zitadel.Types.{MachineUser, PersonalAccessToken}
use oauth2_token_exchange.Zitadel.Api.{Client}
use oauth2_token_exchange.Zitadel.Service.{client}
use oauth2_token_exchange.Pat.Service.{Pat, Service, create_pat, list_pats, of_token, service}
use oauth2_token_exchange.Pat.Service.Laws.{create_pat_returned, IsMadeFor, list_pats_found}
use oauth2_token_exchange.Pat.Service.Zitadel.{wired, create_pat_answered}
use oauth2_token_exchange.Pat.Handler
use oauth2_token_exchange.Pat.Handler.{
  ProtoPat, answered, refused, unauthenticated, not_found, internal, missing_user,
}
use oauth2_token_exchange.Tests.Memory.{Memory}
use oauth2_token_exchange.Tests.Network.{outside, settings, now}

abbrev the_service : Service Memory
the_service = wired outside settings "admin" now

abbrev header : StringMap
header = ("X-Auth-Request-User", "ada") ∷ []

abbrev the_token : ProtoPat
the_token = record {
  id = "t1";
  machine_user_id = "m1";
  human_user_id = "ada";
  expiration_date = pos 2000000000;
  created_at = negsuc 62135596799;
}

create_pat_answered_example :
    (get header "X-Auth-Request-User" ≢ "")
    × (the_token.human_user_id ≡ get header "X-Auth-Request-User")
    × (the_token.expiration_date ≡ pos 2000000000)
    × (the_token.machine_user_id ≢ "")
unfolding Handler.create_pat before of_unix wrap64 ◌+ℤ◌ service client get_machine_user_by_username
    with_body with_auth_token decode_users create_machine_user decode_created_user
    add_personal_access_token decode_added ◌-ℤ◌
create_pat_answered_example =
    create_pat_answered outside settings "admin" now header (pos 2000000000) [] (the_token, "new")
      (omega arith) refl

abbrev the_pat : Pat
the_pat = record {
  id = "t1";
  machine_user_id = "m1";
  human_user_id = "ada";
  expiration_date = of_unix (pos 2000000000);
  created_at = zero_time;
}

create_pat_returned_example :
    (before (of_unix (pos 2000000000)) zero_time ≡ false)
    × IsMadeFor the_service "ada" "a@x" "Ada" (of_unix (pos 2000000000)) the_pat "new"
unfolding create_pat before of_unix wrap64 ◌+ℤ◌ client get_machine_user_by_username with_body
    with_auth_token decode_users create_machine_user decode_created_user add_personal_access_token
    decode_added
create_pat_returned_example =
    create_pat_returned the_service "ada" "a@x" "Ada" (of_unix (pos 2000000000)) [] the_pat "new"
      refl

-- A service of ZITADEL with one machine user and one token.
abbrev one_machine : MachineUser
one_machine = record { id = "m7"; username = "bob"; name = "Bob"; description = "" }

abbrev one_token : PersonalAccessToken
one_token = record {
  id = "t7";
  user_id = "m7";
  expiration_date = zero_time;
  created_at = zero_time;
}

abbrev one_client : Client Memory
one_client = record (client outside settings) {
  machine_user_manager = record (client outside settings).machine_user_manager {
    get_machine_user_by_username = λ admin_pat name m. (returned (some one_machine), m);
  };
  pat_manager = record (client outside settings).pat_manager {
    list_personal_access_tokens = λ admin_pat user_id m. (returned (some one_token ∷ []), m);
  };
}

abbrev one_service : Service Memory
one_service = record { zitadel_client = one_client; admin_pat = "admin"; now = now }

list_pats_found_example :
    list_pats one_service "bob" [] ≡ (returned (of_token "m7" "bob" one_token ∷ []), [])
list_pats_found_example =
    list_pats_found one_service "bob" one_machine (one_token ∷ []) [] [] [] refl refl

abbrev bob : StringMap
bob = ("X-Auth-Request-User", "bob") ∷ []

abbrev removing : Act Memory (Unit {0}) → Service Memory
removing m = record one_service {
  zitadel_client = record one_client {
    pat_manager = record one_client.pat_manager {
      remove_personal_access_token = λ admin_pat user_id pat_id. m;
    };
  };
}

delete_pat_removed_example :
    Handler.delete_pat (service (removing (λ m. (returned tt, m)))) now bob "t7" []
    ≡ (returned (answered true), [])
unfolding get
delete_pat_removed_example =
    delete_pat_removed (removing (λ m. (returned tt, m))) now bob (λ e. cc) "t7" [] one_machine []
      refl [] refl

delete_pat_no_machine_user_example :
    Handler.delete_pat (service the_service) now header "t7" []
    ≡ (returned (refused not_found (sentinel machine_user_not_found)), [])
unfolding get client get_machine_user_by_username with_body with_auth_token decode_users
delete_pat_no_machine_user_example =
    delete_pat_no_machine_user the_service now header (λ e. cc) "t7" [] [] refl

delete_pat_removal_failed_example :
    Handler.delete_pat (service (removing (λ m. (failed (message "gone"), m)))) now bob "t7" []
    ≡ (returned (refused internal (message "gone")), [])
unfolding get
delete_pat_removal_failed_example =
    delete_pat_removal_failed (removing (λ m. (failed (message "gone"), m))) now bob (λ e. cc) "t7"
      [] one_machine [] refl "gone" [] refl
