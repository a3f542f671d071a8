-- ===== src/Pat/Service/Laws.antt =====
-- What the token service does for its caller.
use oauth2_token_exchange.Common.{
  String, false, Option, none, some, List, [], ◌∷◌, eq_iff, ◌≡◌, ◌≢◌, ◌⊎◌, inl, inr, refl, ap, ◌∙◌,
  map, arith,
}
use oauth2_token_exchange.Go.Errors.{sentinel, machine_user_not_found}
use oauth2_token_exchange.Go.Act.{returned, failed, wrapping}
use oauth2_token_exchange.Go.Act.Laws.{>>=-eq-returned, refuse_if_passed, wrap_reply-eq-returned}
use oauth2_token_exchange.Go.Time.{Time, before}
use oauth2_token_exchange.Zitadel.Types.{MachineUser, PersonalAccessToken}
use oauth2_token_exchange.Pat.Service.{
  Pat, Service, create_pat, list_pats, delete_pat, of_token, of_tokens, or_create, with_id, created,
  add_for, check_and_add, create_with,
}

module _ {S : Type 0} (s : Service S) where
  open s use {zitadel_client as client, admin_pat}

  -- The user of a deletion: the token is removed from the machine user found under the caller's id.
  pub delete_pat_found :
      (user_id pat_id : String) (user : MachineUser) (st st1 : S)
      → client.get_machine_user_by_username admin_pat user_id st ≡ (returned (some user), st1)
      → delete_pat s user_id pat_id st
        ≡ client.remove_personal_access_token admin_pat user.id pat_id st1
  unfolding delete_pat
  delete_pat_found user_id pat_id user st st1 found = rw found

  pub delete_pat_missing :
      (user_id pat_id : String) (st st1 : S)
      → client.get_machine_user_by_username admin_pat user_id st ≡ (returned none, st1)
      → delete_pat s user_id pat_id st ≡ (failed (sentinel machine_user_not_found), st1)
  unfolding delete_pat
  delete_pat_missing user_id pat_id st st1 missing = rw missing

  of_tokens-map :
      (machine user_id : String) (zps : List PersonalAccessToken) (st : S)
      → of_tokens s machine user_id (map some zps) st
        ≡ (returned (map (of_token machine user_id) zps), st)
  unfolding of_tokens
  of_tokens-map machine user_id [] st = refl
  of_tokens-map machine user_id (zp ∷ zps) st = rw (of_tokens-map machine user_id zps st)

  -- All tokens that ZITADEL lists for the machine user found under the caller's id are listed, in
  -- order, each under the caller's id.
  pub list_pats_found :
      (user_id : String) (user : MachineUser) (zps : List PersonalAccessToken) (st st1 st2 : S)
      → client.get_machine_user_by_username admin_pat user_id st ≡ (returned (some user), st1)
      → client.list_personal_access_tokens admin_pat user.id st1 ≡ (returned (map some zps), st2)
      → list_pats s user_id st ≡ (returned (map (of_token user.id user_id) zps), st2)
  unfolding list_pats
  list_pats_found user_id user zps st st1 st2 found listed =
      rw (found, listed) (of_tokens-map user.id user_id zps st2)

  -- Where the machine user of a new token comes from: it was found under the caller's id, or none
  -- was found and ZITADEL made one with that name.
  abbrev pub IsUserOf : String → String → String → MachineUser → Type 0
  IsUserOf user_id email name user =
      (st : S) × (((client.get_machine_user_by_username admin_pat user_id st).0
          ≡ returned (some user))
        ⊎ (((client.get_machine_user_by_username admin_pat user_id st).0 ≡ returned none)
            × ((client.create_machine_user admin_pat user_id name email
                  (client.get_machine_user_by_username admin_pat user_id st).1).0
                ≡ returned (some user))))

  -- A token that was made for a caller.
  pub record IsMadeFor (user_id email name : String) (expiration : Time) (p : Pat) (token : String)
      : Type 0 where
    pub user : MachineUser
    pub user_of : IsUserOf user_id email name user
    pub has_id : user.id ≢ ""
    pub before_add : S
    pub zp : PersonalAccessToken
    pub added :
        (client.add_personal_access_token admin_pat user.id expiration before_add).0
        ≡ returned (some zp, token)
    pub built : p ≡ of_token user.id user_id zp

  with_id_returned :
      (found : Option MachineUser) (st : S) {user : MachineUser}
      → (with_id s found st).0 ≡ returned user
      → (found ≡ some user) × (user.id ≢ "")
  with_id_returned none st h = cc
  with_id_returned (some user) st h = ground (arith, eq_iff user.id "")

  or_create_returned :
      (user_id email name : String) (found : Option MachineUser) (st : S) {user : MachineUser}
      → (client.get_machine_user_by_username admin_pat user_id st).0 ≡ returned found
      → (or_create s user_id email name found
          (client.get_machine_user_by_username admin_pat user_id st).1).0
        ≡ returned (some user)
      → IsUserOf user_id email name user
  or_create_returned user_id email name (some user') st got h = (st, inl (got ∙ cc))
  or_create_returned user_id email name none st got h =
      (st, inr (got, wrap_reply-eq-returned "failed to create machine user" _ h))

  created_returned :
      (machine user_id : String) (added : Option PersonalAccessToken × String) (st : S) {p : Pat}
      {token : String}
      → (created s machine user_id added st).0 ≡ returned (p, token)
      → (zp : PersonalAccessToken) × (added ≡ (some zp, token)) × (p ≡ of_token machine user_id zp)
  created_returned machine user_id (none, t) st h = cc
  created_returned machine user_id (some zp, t) st h = (zp, ground arith, ground arith)

  -- A token is created only for an expiration date that is not past, for the machine user found
  -- or made under the caller's id, whose id is not empty; and it is the token that ZITADEL added
  -- for that user and that date.
  pub create_pat_returned :
      (user_id email name : String) (expiration : Time) (st : S) (p : Pat) (token : String)
      → (create_pat s user_id email name expiration st).0 ≡ returned (p, token)
      → (before expiration (s.now st).0 ≡ false) × IsMadeFor user_id email name expiration p token
  unfolding create_pat
  create_pat_returned user_id email name expiration st p token h =
      let st1 = (s.now st).1 in
      let get = client.get_machine_user_by_username admin_pat user_id in
      let (future, h1) = refuse_if_passed (before expiration (s.now st).0) _ _ st1 h in
      let (found, got, h2) =
        >>=-eq-returned (wrapping "failed to get user by username" get)
          (create_with s user_id email name expiration) st1 h1 in
      let st2 = (get st1).1 in
      let (user, made, h3) =
        >>=-eq-returned (or_create s user_id email name found) (check_and_add s user_id expiration)
          st2 h2 in
      let st3 = (or_create s user_id email name found st2).1 in
      let (user', checked, h4) =
        >>=-eq-returned (with_id s user) (add_for s user_id expiration) st3 h3 in
      let st4 = (with_id s user st3).1 in
      let add = client.add_personal_access_token admin_pat user'.id expiration in
      let (added, gave, h5) = >>=-eq-returned add (created s user'.id user_id) st4 h4 in
      let (same, has_id) = with_id_returned user st3 checked in
      let (zp, same', built) = created_returned user'.id user_id added (add st4).1 h5 in
      (
        future,
        record {
          user = user';
          user_of =
              or_create_returned user_id email name found st1
                (wrap_reply-eq-returned "failed to get user by username" (get st1).0 got)
                (made ∙ ap returned same);
          has_id = has_id;
          before_add = st4;
          zp = zp;
          added = gave ∙ ap returned same';
          built = built;
        },
      )
