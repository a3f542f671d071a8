-- ===== src/Zitadel/Added.antt =====
-- What ZITADEL has answered when the client returns a token that it has added.
use oauth2_token_exchange.Common.{
  String, ◌<>◌, ◌≡◌, sym, subst, Option, none, some, List, [], ◌∷◌, leb, arith, if◌then◌else◌,
}
use oauth2_token_exchange.Go.Act.{returned}
use oauth2_token_exchange.Go.Act.Laws.{
  returned-injective, >>=-eq-returned, wrap_reply-eq-returned, refuse_if_passed,
}
use oauth2_token_exchange.Go.Time.{Time, zero_time, is_zero}
use oauth2_token_exchange.Go.Json.{null, text, object, end, member}
use oauth2_token_exchange.Http.{Request, RequestOption, json, readable, with_auth_token, with_body}
use oauth2_token_exchange.Http.Laws.{request_returned}
use oauth2_token_exchange.Zitadel.Types.{PersonalAccessToken}
use oauth2_token_exchange.Zitadel.PatResponses.{
  AddPersonalAccessTokenResponse, no_added, decode_added,
}
use oauth2_token_exchange.Zitadel.Requests.{encode_add_token}
use oauth2_token_exchange.Zitadel.Client.{ZitadelClient, Outside, bad_request}
use oauth2_token_exchange.Zitadel.Pats.{add_personal_access_token, send_token, new_token}
use oauth2_token_exchange.Zitadel.Accepted.{IsAnswered, json_post, prepared-json_post}

-- The date of an answer, or Go's zero time.
abbrev pub creation_time : Option Time → Time
creation_time none = zero_time
creation_time (some t) = t

module _ {S : Type 0} (o : Outside S) (c : ZitadelClient) where
  module _ (admin_pat user_id : String) (expiration : Time) where
    abbrev pub add_token_request : S → Request
    add_token_request = json_post o c ("/v2/users/" <> user_id <> "/pats") admin_pat (
        object (
          member "userId" (text user_id) (
            member "expirationDate"
              (if is_zero expiration then null else text (o.calendar.format expiration)) end)))

    -- The options of the code's call.
    abbrev options : List RequestOption
    options =
        with_auth_token admin_pat
        ∷ with_body (
            json (
              encode_add_token o.calendar
                (record { user_id = user_id; expiration_date = some expiration })))
        ∷ []

    -- An addition that returns gives a token and its text. ZITADEL has answered the POST request
    -- with the user and the expiration date of the call below status 400, and the id, the
    -- creation date and the text are those of its answer, the user and the expiration date those
    -- of the call.
    pub add_personal_access_token_returned :
        (st : S) (added : Option PersonalAccessToken × String)
        → (add_personal_access_token o c admin_pat user_id expiration st).0 ≡ returned added
        → (result : AddPersonalAccessTokenResponse) × IsAnswered o c
            (decode_added o.calendar)
            no_added
            (add_token_request st)
            st
            result
          × (added ≡ (
            some (record {
              id = result.token_id;
              user_id = user_id;
              expiration_date = expiration;
              created_at = creation_time result.creation_date;
            }),
            result.token,
          ))
    unfolding add_personal_access_token encode_add_token
    add_personal_access_token_returned st added h =
        let ((resp, result), got, rest) =
          >>=-eq-returned (send_token o c admin_pat user_id expiration)
            (new_token o c user_id expiration) st h in
        let (good, made) = refuse_if_passed (leb bad_request resp.status) _ _ _ rest in
        let (sent, read) =
          request_returned o.network "POST" (c.issuer <> "/v2/users/" <> user_id <> "/pats") options
            (decode_added o.calendar) no_added st _ (wrap_reply-eq-returned _ _ got) in
        (
          result,
          (
            resp,
            subst
                (λ (r : Request).
                  (o.network.send r (readable (decode_added o.calendar) no_added) st).0
                  ≡ returned resp)
                (prepared-json_post o c ("/v2/users/" <> user_id <> "/pats") admin_pat _ st) sent,
            ground arith,
            read,
          ),
          sym (returned-injective _ _ made),
        )
