-- ===== src/Pat/Service.antt =====
-- internal/domain/pat/service_impl.go, entity.go and service.go. Log lines are not modelled.
pub mod Laws
pub mod Zitadel
use oauth2_token_exchange.Common.{
  String, Bool, Option, none, some, List, [], ◌∷◌, ◌==◌, if◌then◌else◌,
}
use oauth2_token_exchange.Go.Errors.{sentinel, message, invalid_expiration, machine_user_not_found}
use oauth2_token_exchange.Go.Act.{
  Act, returned, pure, fail, panic, wrapping, refuse_if, ◌>>=◌, ◌>>◌,
}
use oauth2_token_exchange.Go.Time.{Time, before}
use oauth2_token_exchange.Zitadel.Types.{MachineUser, PersonalAccessToken}
use oauth2_token_exchange.Zitadel.Api.{Client}
use oauth2_token_exchange.Zitadel.Users.{nil_dereference}

pub record Pat : Type 0 where
  pub id : String
  pub machine_user_id : String
  pub human_user_id : String
  pub expiration_date : Time
  pub created_at : Time

-- The interface `Service`.
pub record PatService (S : Type 0) : Type 0 where
  pub create_pat : String → String → String → Time → Act S (Pat × String)
  pub list_pats : String → Act S (List Pat)
  pub delete_pat : String → String → Act S (Unit {0})

-- The service, with the clock that `time.Now` reads.
pub record Service (S : Type 0) : Type 0 where
  pub zitadel_client : Client S
  pub admin_pat : String
  pub now : S → Time × S

unfoldable pub of_token : String → String → PersonalAccessToken → Pat
of_token machine_user_id user_id zp = record {
  id = zp.id;
  machine_user_id = machine_user_id;
  human_user_id = user_id;
  expiration_date = zp.expiration_date;
  created_at = zp.created_at;
}

module _ {S : Type 0} (s : Service S) where
  abbrev pub clock : Act S Time
  clock st = let (t, st') = s.now st in (returned t, st')

  -- The machine user that was found, or else a new one.
  abbrev pub or_create : String → String → String → Option MachineUser → Act S (Option MachineUser)
  or_create user_id email preferred_username (some user) = pure (some user)
  or_create user_id email preferred_username none =
      wrapping "failed to create machine user"
        (s.zitadel_client.create_machine_user s.admin_pat user_id preferred_username email)

  abbrev pub with_id : Option MachineUser → Act S MachineUser
  with_id none = fail (message "machine user is nil or has empty ID after get/create")
  with_id (some user) =
      if user.id == ""
      then fail (message "machine user is nil or has empty ID after get/create")
      else pure user

  -- A nil token with a nil error panics when it is read.
  abbrev pub created : String → String → Option PersonalAccessToken × String → Act S (Pat × String)
  created machine_user_id user_id (none, token) = panic nil_dereference
  created machine_user_id user_id (some zp, token) =
      pure (of_token machine_user_id user_id zp, token)

  abbrev pub add_for : String → Time → MachineUser → Act S (Pat × String)
  add_for user_id expiration_date user = do
    added ← s.zitadel_client.add_personal_access_token s.admin_pat user.id expiration_date
    created user.id user_id added

  abbrev pub check_and_add : String → Time → Option MachineUser → Act S (Pat × String)
  check_and_add user_id expiration_date found = do
    user ← with_id found
    add_for user_id expiration_date user

  abbrev pub create_with :
      String → String → String → Time → Option MachineUser → Act S (Pat × String)
  create_with user_id email preferred_username expiration_date found = do
    user ← or_create user_id email preferred_username found
    check_and_add user_id expiration_date user

  unfoldable pub create_pat : String → String → String → Time → Act S (Pat × String)
  unfolding of_token
  create_pat user_id email preferred_username expiration_date = do
    now ← clock
    refuse_if (before expiration_date now) (sentinel invalid_expiration)
    found ←
        wrapping "failed to get user by username"
          (s.zitadel_client.get_machine_user_by_username s.admin_pat user_id)
    create_with user_id email preferred_username expiration_date found

  -- The loop over the tokens. A nil token panics when it is read.
  unfoldable pub of_tokens : String → String → List (Option PersonalAccessToken) → Act S (List Pat)
  unfolding of_token
  of_tokens machine_user_id user_id [] = pure []
  of_tokens machine_user_id user_id (none ∷ rest) = panic nil_dereference
  of_tokens machine_user_id user_id (some zp ∷ rest) = do
    pats ← of_tokens machine_user_id user_id rest
    pure (of_token machine_user_id user_id zp ∷ pats)

  abbrev pub list_of_user : String → Option MachineUser → Act S (List Pat)
  list_of_user user_id none = pure []
  list_of_user user_id (some user) = do
    tokens ← s.zitadel_client.list_personal_access_tokens s.admin_pat user.id
    of_tokens user.id user_id tokens

  unfoldable pub list_pats : String → Act S (List Pat)
  unfolding of_tokens
  list_pats user_id = do
    user ← s.zitadel_client.get_machine_user_by_username s.admin_pat user_id
    list_of_user user_id user

  abbrev pub delete_of_user : String → Option MachineUser → Act S (Unit {0})
  delete_of_user pat_id none = fail (sentinel machine_user_not_found)
  delete_of_user pat_id (some user) =
      s.zitadel_client.remove_personal_access_token s.admin_pat user.id pat_id

  unfoldable pub delete_pat : String → String → Act S (Unit {0})
  delete_pat user_id pat_id = do
    user ← s.zitadel_client.get_machine_user_by_username s.admin_pat user_id
    delete_of_user pat_id user

  -- `NewService`
  unfoldable pub service : PatService S
  unfolding create_pat list_pats delete_pat
  service = record { create_pat = create_pat; list_pats = list_pats; delete_pat = delete_pat }
