-- ===== src/Zitadel/Api.antt =====
-- The interfaces of internal/infra/zitadel/client.go. A pointer result is an `Option`, `none` being
-- nil with a nil error.
use oauth2_token_exchange.Common.{String, Option, List}
use oauth2_token_exchange.Go.Act.{Act}
use oauth2_token_exchange.Go.Time.{Time}
use oauth2_token_exchange.Zitadel.Types.{UserInfo, MachineUser, PersonalAccessToken, TokenResponse}

module _ (S : Type 0) where
  pub record TokenExchanger : Type 0 where
    pub exchange : String → Act S (Option TokenResponse)
    pub exchange_with_actor : String → String → String → Act S (Option TokenResponse)

  pub record UserInfoGetter : Type 0 where
    pub get_user_info : String → Act S (Option UserInfo)

  pub record MachineUserManager : Type 0 where
    pub get_machine_user_by_username : String → String → Act S (Option MachineUser)
    pub create_machine_user : String → String → String → String → Act S (Option MachineUser)

  pub record PatManager : Type 0 where
    pub add_personal_access_token :
        String → String → Time → Act S (Option PersonalAccessToken × String)
    pub list_personal_access_tokens : String → String → Act S (List (Option PersonalAccessToken))
    pub remove_personal_access_token : String → String → String → Act S (Unit {0})

  pub record Client : Type 0 where
    pub token_exchanger : TokenExchanger
    pub open token_exchanger use *
    pub user_info_getter : UserInfoGetter
    pub open user_info_getter use *
    pub machine_user_manager : MachineUserManager
    pub open machine_user_manager use *
    pub pat_manager : PatManager
    pub open pat_manager use *
