-- ===== src/Zitadel/Created.antt =====
-- What ZITADEL has answered when the client returns a machine user or a token that it has made.
use oauth2_token_exchange.Common.{
  String, ◌<>◌, ◌<◌, ◌≡◌, ◌≢◌, ◌⊎◌, inl, inr, refl, sym, ap, subst, ◌∙◌, Option, none, some, List,
  [], ◌∷◌, ◌==◌, eq_iff, leb, eqb, arith, Bool-cases, if◌then◌else◌,
}
use oauth2_token_exchange.Go.Act.{returned, wrapping}
use oauth2_token_exchange.Go.Act.Laws.{
  returned-injective, >>=-eq-returned, wrap_reply-eq-returned, refuse_if_passed,
}
use oauth2_token_exchange.Go.Json.{Json, text, object, end, member}
use oauth2_token_exchange.Http.{
  Request, Response, RequestOption, json, readable, prepared, with_auth_token, with_body,
}
use oauth2_token_exchange.Http.Laws.{request_returned, request-state, IsRead}
use oauth2_token_exchange.Zitadel.Types.{MachineUser}
use oauth2_token_exchange.Zitadel.Responses.{
  CreateUserResponse, no_created_user, decode_created_user,
}
use oauth2_token_exchange.Zitadel.Requests.{encode_create_user}
use oauth2_token_exchange.Zitadel.Client.{ZitadelClient, Outside, bad_request, conflict}
use oauth2_token_exchange.Zitadel.Users.{
  get_machine_user_by_username, create_machine_user, new_user, existing_user, send_user,
}
use oauth2_token_exchange.Zitadel.Accepted.{json_post, prepared-json_post}
use oauth2_token_exchange.Zitadel.Laws.{get_machine_user_has_id, existing_user_returned}

module _ {S : Type 0} (o : Outside S) (c : ZitadelClient) where
  -- An answer to a request, whatever its status, and what the document decodes to.
  abbrev pub IsReply : Request → S → Response → CreateUserResponse → Type 0
  IsReply r st resp result =
      ((o.network.send r (readable (decode_created_user o.calendar) no_created_user) st).0
        ≡ returned resp)
      × IsRead (decode_created_user o.calendar) no_created_user resp.document result

  module _ (admin_pat username name description : String) where
    -- The JSON of a new machine user. An empty description is left out.
    abbrev user_document : Json
    user_document = object (
        member "organizationId" (text c.organization_id) (
          member "username" (text username) (
            member "machine"
              (object (
                member "name" (text name)
                  (if description == "" then end else member "description" (text description) end)))
              end)))

    abbrev pub create_user_request : S → Request
    create_user_request = json_post o c "/v2/users/new" admin_pat user_document

    -- The options of the code's call.
    abbrev options : List RequestOption
    options =
        with_auth_token admin_pat
        ∷ with_body (
            json (
              encode_create_user (record {
                organization_id = c.organization_id;
                user_id = none;
                username = some username;
                machine = some (record { name = name; description = description });
              })))
        ∷ []

    prepared-create_user_request :
        (st : S)
        → prepared o.network "POST" (c.issuer <> "/v2/users/new") options st
          ≡ create_user_request st
    unfolding encode_create_user
    prepared-create_user_request st = prepared-json_post o c "/v2/users/new" admin_pat _ st

    -- The new user of an answer below status 400, or the one that a lookup in the world after an
    -- answer with status 409 has found.
    abbrev pub IsCreated : S → Response → CreateUserResponse → MachineUser → Type 0
    IsCreated after resp result u =
        ((resp.status < 400)
          × (u ≡ record {
            id = result.id;
            username = username;
            name = name;
            description = description;
          }))
        ⊎ ((resp.status ≡ 409)
            × ((get_machine_user_by_username o c admin_pat username after).0 ≡ returned (some u)))

    new_user_returned :
        (resp : Response) (result : CreateUserResponse) (st : S) {user : Option MachineUser}
        → (new_user o c admin_pat username name description (resp, result) st).0 ≡ returned user
        → (u : MachineUser) × (user ≡ some u) × (u.id ≢ "") × IsCreated st resp result u
    new_user_returned resp result st h = elim (Bool-cases (leb bad_request resp.status)) [
      | inl bad ↦ elim (Bool-cases (eqb resp.status conflict)) [
        | inl clash ↦
            let lookup =
              wrapping "user already exists but could not be retrieved"
                (get_machine_user_by_username o c admin_pat username) in
            let (found, got, rest) =
              >>=-eq-returned lookup (existing_user o c) st (rw (bad, clash) at h) in
            let (u, same, made) = existing_user_returned o c found _ rest in
            let gave = wrap_reply-eq-returned _ _ (got ∙ ap returned same) in
            (
              u,
              made,
              get_machine_user_has_id o c admin_pat username st u gave,
              inr (ground arith, gave),
            )
        | inr other ↦ absurd (ground arith)
      ]
      | inr good ↦
          let (has_id, rest) = refuse_if_passed (result.id == "") _ _ st (rw good at h) in
          (
            _,
            sym (returned-injective _ _ rest),
            ground (arith, eq_iff result.id ""),
            inl (ground arith, refl),
          )
    ]

    -- A creation that returns gives a machine user whose id is not empty. ZITADEL has answered
    -- the POST request with that user's data, and the user is the new one of its answer, below
    -- status 400, or the answer had status 409 and the user is the one that the lookup of the
    -- same name then found.
    pub create_machine_user_returned :
        (st : S) (user : Option MachineUser)
        → (create_machine_user o c admin_pat username name description st).0 ≡ returned user
        → (u : MachineUser) × (user ≡ some u)
          × (u.id ≢ "")
          × ((resp : Response) × (result : CreateUserResponse) × IsReply
                (create_user_request st)
                st
                resp
                result
              × IsCreated
                  (o.network.send
                    (create_user_request st)
                    (readable (decode_created_user o.calendar) no_created_user)
                    st).1
                  resp
                  result
                  u)
    unfolding create_machine_user
    create_machine_user_returned st user h =
        let ((resp, result), got, rest) =
          >>=-eq-returned (send_user o c admin_pat username name description)
            (new_user o c admin_pat username name description) st h in
        let (sent, read) =
          request_returned o.network "POST" (c.issuer <> "/v2/users/new") options
            (decode_created_user o.calendar) no_created_user st _
            (wrap_reply-eq-returned _ _ got) in
        let (u, same, has_id, made) = new_user_returned resp result _ rest in
        let pinned = prepared-create_user_request st in
        let send = λ (r : Request).
          o.network.send r (readable (decode_created_user o.calendar) no_created_user) st in
        (
          u,
          same,
          has_id,
          (
            resp,
            result,
            (subst (λ r. (send r).0 ≡ returned resp) pinned sent, read),
            subst (λ after. IsCreated after resp result u)
                (request-state o.network "POST" (c.issuer <> "/v2/users/new") options
                    (decode_created_user o.calendar) no_created_user st
                  ∙ ap (λ r. (send r).1) pinned)
                made,
          ),
        )
