-- ===== src/Zitadel/Users.antt =====
-- internal/infra/zitadel/client.go: `GetMachineUserByUsername` and `CreateMachineUser`.
use oauth2_token_exchange.Common.{
  String, ◌<>◌, Option, none, some, List, [], ◌∷◌, leb, eqb, ◌==◌, if◌then◌else◌, false,
}
use oauth2_token_exchange.Go.Errors.{message}
use oauth2_token_exchange.Go.Act.{Act, pure, fail, panic, wrapping, refuse_if, ◌>>=◌, ◌>>◌}
use oauth2_token_exchange.Http.{Response, json, request, post, with_auth_token, with_body}
use oauth2_token_exchange.Zitadel.Types.{MachineUser}
use oauth2_token_exchange.Zitadel.Responses.{
  MachineUserResponse, User, ListUsersResponse, no_users, decode_users, CreateUserResponse,
  no_created_user, decode_created_user,
}
use oauth2_token_exchange.Zitadel.Requests.{
  user_type_machine, ListUsersRequest, encode_list_users, encode_create_user,
}
use oauth2_token_exchange.Zitadel.Client.{
  ZitadelClient, Outside, bad_request, not_found, conflict, status_error,
}

-- A machine user of the organization, by its exact name.
unfoldable pub machine_user_query : ZitadelClient → String → ListUsersRequest
machine_user_query c username = record {
  query = some (record { offset = 0; limit = 1; asc = false });
  sorting_column = "";
  queries =
      record {
        user_name_query =
            some (record { user_name = username; method = "TEXT_QUERY_METHOD_EQUALS" });
        type_query = none;
        organization_id_query = none;
      }
      ∷ record {
        user_name_query = none;
        type_query = some (record { type = user_type_machine });
        organization_id_query = none;
      }
      ∷ record {
        user_name_query = none;
        type_query = none;
        organization_id_query = some (record { organization_id = c.organization_id });
      }
      ∷ [];
}

abbrev pub nil_dereference : String
nil_dereference = "runtime error: invalid memory address or nil pointer dereference"

module _ {S : Type 0} (o : Outside S) (c : ZitadelClient) where
  abbrev of_machine : String → User → Option MachineUserResponse → Act S (Option MachineUser)
  of_machine username user none =
      fail (message ("machine user " <> username <> " is not a machine user"))
  of_machine username user (some m) = pure (
      some (record {
        id = user.user_id;
        username = user.username;
        name = m.name;
        description = m.description;
      }))

  -- The first user of the answer, and what the code requires of it. Reading a nil user panics.
  unfoldable pub first_user :
      String → Response → ListUsersResponse → List (Option User) → Act S (Option MachineUser)
  first_user username resp result [] = pure none
  first_user username resp result (none ∷ _) = panic nil_dereference
  first_user username resp result (some user ∷ _) = do
    refuse_if (user.user_id == "") (
        message (
          "get machine user by username returned empty user ID, response body: "
          <> resp.text
          <> ", parsed result: "
          <> o.show_users result))
    of_machine username user user.machine

  -- What is made of the answer to the query.
  abbrev pub looked_up : String → Response × ListUsersResponse → Act S (Option MachineUser)
  looked_up username (resp, result) =
      if leb bad_request resp.status
      then (if eqb resp.status not_found
          then pure none
          else fail (status_error "get machine user by username" resp))
      else first_user username resp result result.result

  abbrev pub send_query : String → String → Act S (Response × ListUsersResponse)
  send_query admin_pat username = wrapping "get machine user by username failed" (
      post o.network (c.issuer <> "/v2/users")
        (with_auth_token admin_pat
          ∷ with_body (json (encode_list_users (machine_user_query c username)))
          ∷ [])
        (decode_users o.calendar) no_users)

  unfoldable pub get_machine_user_by_username : String → String → Act S (Option MachineUser)
  unfolding machine_user_query first_user request
  get_machine_user_by_username admin_pat username = do
    answer ← send_query admin_pat username
    looked_up username answer

  abbrev pub existing_user : Option MachineUser → Act S (Option MachineUser)
  existing_user none = fail (message "user already exists but could not be retrieved")
  existing_user (some user) = pure (some user)

  -- What is made of the answer to the creation.
  abbrev pub new_user :
      String → String → String → String → Response × CreateUserResponse → Act S (Option MachineUser)
  new_user admin_pat username name description (resp, result) =
      if leb bad_request resp.status
      then (if eqb resp.status conflict
          then (do
            user ←
                wrapping "user already exists but could not be retrieved"
                  (get_machine_user_by_username admin_pat username)
            existing_user user)
          else fail (status_error "create machine user" resp))
      else (do
        refuse_if (result.id == "") (
            message (
              "create machine user returned empty user ID, response body: "
              <> resp.text
              <> ", parsed result: "
              <> o.show_created_user result))
        pure (
            some (record {
              id = result.id;
              username = username;
              name = name;
              description = description;
            })))

  abbrev pub send_user : String → String → String → String → Act S (Response × CreateUserResponse)
  send_user admin_pat username name description = wrapping "create machine user failed" (
      post o.network (c.issuer <> "/v2/users/new")
        (with_auth_token admin_pat
          ∷ with_body (
              json (
                encode_create_user (record {
                  organization_id = c.organization_id;
                  user_id = none;
                  username = some username;
                  machine = some (record { name = name; description = description });
                })))
          ∷ [])
        (decode_created_user o.calendar) no_created_user)

  unfoldable pub create_machine_user :
      String → String → String → String → Act S (Option MachineUser)
  unfolding get_machine_user_by_username
  create_machine_user admin_pat username name description = do
    answer ← send_user admin_pat username name description
    new_user admin_pat username name description answer
