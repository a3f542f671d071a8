-- ===== src/Zitadel/Laws.antt =====
-- What a lookup by the ZITADEL client guarantees to its callers.
use oauth2_token_exchange.Common.{
  String, ◌≡◌, ◌≢◌, inl, inr, refl, Option, none, some, List, [], ◌∷◌, eq_iff, leb, arith,
  Bool-cases,
}
use oauth2_token_exchange.Go.Act.{returned}
use oauth2_token_exchange.Go.Act.Laws.{>>=-eq-returned}
use oauth2_token_exchange.Http.{Response}
use oauth2_token_exchange.Zitadel.Types.{MachineUser}
use oauth2_token_exchange.Zitadel.Responses.{User, ListUsersResponse}
use oauth2_token_exchange.Zitadel.Client.{ZitadelClient, Outside, bad_request}
use oauth2_token_exchange.Zitadel.Users.{
  get_machine_user_by_username, first_user, looked_up, existing_user, send_query,
}

module _ {S : Type 0} (o : Outside S) (c : ZitadelClient) where
  first_user_returned :
      (username : String) (resp : Response) (result : ListUsersResponse)
      (users : List (Option User)) (st : S) {user : MachineUser}
      → (first_user o c username resp result users st).0 ≡ returned (some user)
      → user.id ≢ ""
  unfolding first_user
  first_user_returned username resp result [] st h = cc
  first_user_returned username resp result (none ∷ _) st h = cc
  first_user_returned username resp result (some u ∷ _) st h = ground (arith, eq_iff u.user_id "")

  looked_up_returned :
      (username : String) (answer : Response × ListUsersResponse) (st : S) {user : MachineUser}
      → (looked_up o c username answer st).0 ≡ returned (some user)
      → user.id ≢ ""
  looked_up_returned username (resp, result) st h =
      elim (Bool-cases (leb bad_request resp.status)) [
        | inl bad ↦ absurd (ground arith)
        | inr good ↦ first_user_returned username resp result result.result st (rw good at h)
      ]

  -- A machine user that is found has an id.
  pub get_machine_user_has_id :
      (admin_pat username : String) (st : S) (user : MachineUser)
      → (get_machine_user_by_username o c admin_pat username st).0 ≡ returned (some user)
      → user.id ≢ ""
  unfolding get_machine_user_by_username
  get_machine_user_has_id admin_pat username st user h =
      let (answer, got, rest) =
        >>=-eq-returned (send_query o c admin_pat username) (looked_up o c username) st h in
      looked_up_returned username answer _ rest

  pub existing_user_returned :
      (found : Option MachineUser) (st : S) {user : Option MachineUser}
      → (existing_user o c found st).0 ≡ returned user
      → (u : MachineUser) × (found ≡ some u) × (user ≡ some u)
  existing_user_returned none st h = cc
  existing_user_returned (some u) st h = (u, refl, ground arith)
