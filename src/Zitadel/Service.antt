-- ===== src/Zitadel/Service.antt =====
-- `NewClient` of internal/infra/zitadel/client.go as an implementation of the interface `Client`.
use oauth2_token_exchange.Zitadel.Api.{Client}
use oauth2_token_exchange.Zitadel.Client.{ZitadelClient, Outside}
use oauth2_token_exchange.Zitadel.Tokens.{exchange, exchange_with_actor, get_user_info}
use oauth2_token_exchange.Zitadel.Users.{get_machine_user_by_username, create_machine_user}
use oauth2_token_exchange.Zitadel.Pats.{
  add_personal_access_token, list_personal_access_tokens, remove_personal_access_token,
}

unfoldable pub client : {S : Type 0} → Outside S → ZitadelClient → Client S
client o c = record {
  token_exchanger = record {
    exchange = exchange o c;
    exchange_with_actor = exchange_with_actor o c;
  };
  user_info_getter = record { get_user_info = get_user_info o c };
  machine_user_manager = record {
    get_machine_user_by_username = get_machine_user_by_username o c;
    create_machine_user = create_machine_user o c;
  };
  pat_manager = record {
    add_personal_access_token = add_personal_access_token o c;
    list_personal_access_tokens = list_personal_access_tokens o c;
    remove_personal_access_token = remove_personal_access_token o c;
  };
}
