-- ===== src/Transport/Check/Laws.antt =====
-- The statuses of the check, and the token that it reads from a request.
use oauth2_token_exchange.Common.{
  String, ◌<>◌, true, false, none, ◌==◌, eq_iff, if◌then◌else◌, ◌≡◌, ◌≢◌, ◌⊎◌, inl, inr, sym, ap,
  ◌∙◌, arith, Bool-cases,
}
use oauth2_token_exchange.Go.Errors.{GoError, Result, ok, err}
use oauth2_token_exchange.Go.Act.{Act, Reply, returned, failed, pure, attempt, attempt_reply}
use oauth2_token_exchange.Go.Act.Laws.{
  >>=-eq-returned, returned-injective, >>=-pure, attempt_reply-eq-ok, attempt_reply-eq-err,
}
use oauth2_token_exchange.Go.Map.{StringMap}
use oauth2_token_exchange.Go.Strings.{strip}
use oauth2_token_exchange.Go.Strings.Laws.{
  StartsSolid, EndsSolid, trim_prefix_of_other, trim_prefix-append, trim_space_of_solid,
}
use oauth2_token_exchange.Cache.{Duration}
use oauth2_token_exchange.Authz.Types.{AuthzDecision}
use oauth2_token_exchange.Authz.Service.{Service, bare_token, authorize_pat, authorize_token}
use oauth2_token_exchange.Transport.Gin.{
  Incoming, Outgoing, error_json, status_unauthorized, status_internal, get_header,
}
use oauth2_token_exchange.Transport.Check.{check, Handler, put_headers, answer, handle_check}

-- The token of a bearer header is the token, if it has no white space at its ends.
pub bare_token-bearer :
    (pat : String) → StartsSolid pat → EndsSolid pat → bare_token ("Bearer " <> pat) ≡ pat
unfolding bare_token
bare_token-bearer pat h k = rw trim_prefix-append (trim_space_of_solid pat h k)

bare_token_of_bare :
    (pat : String)
    → StartsSolid pat
    → EndsSolid pat
    → strip "Bearer " pat ≡ none
    → bare_token pat ≡ pat
unfolding bare_token
bare_token_of_bare pat h k bare =
    rw (trim_prefix_of_other "Bearer " pat bare) (trim_space_of_solid pat h k)

-- The header `Bearer <pat>` has the domain decide on that very token, though both the handler and
-- the domain take the prefix away: this is so if the token is not empty, has no white space at
-- its ends, and does not itself begin with the prefix.
pub authorize_pat-bearer :
    {S : Type 0} (s : Service S) (ttl : Duration) (keys : StringMap) (pat : String)
    → pat ≢ ""
    → StartsSolid pat
    → EndsSolid pat
    → strip "Bearer " pat ≡ none
    → authorize_pat s (bare_token ("Bearer " <> pat)) ttl keys ≡ authorize_token s pat ttl keys
unfolding authorize_pat
authorize_pat-bearer s ttl keys pat given h k bare =
    rw (bare_token-bearer pat h k, bare_token_of_bare pat h k bare) (ground (arith, eq_iff pat ""))

module _ {S : Type 0} (h : Handler S) where
  -- The value that the check reads: of `Authorization`, or else of `authorization`.
  abbrev pub token_header : Incoming → String
  token_header r =
      let header = get_header h.canonical r "Authorization" in
      if header == "" then get_header h.canonical r "authorization" else header

  abbrev pub asked : Incoming → Act S AuthzDecision
  asked r = h.authorize (bare_token (token_header r)) h.cache_ttl h.keys

  -- What a status of the check stands for.
  abbrev pub IsAnswer : Incoming → Outgoing → S → Outgoing → Type 0
  IsAnswer r w st out =
      ((d : AuthzDecision) × ((asked r st).0 ≡ returned d)
        × (d.allow ≡ true)
        × (out ≡ record (put_headers h.canonical (h.range d.headers) w) { status = 200 }))
      ⊎ ((d : AuthzDecision) × ((asked r st).0 ≡ returned d)
          × (d.allow ≡ false)
          × (out ≡ record w { status = status_unauthorized; content = error_json d.reason }))
      ⊎ ((token_header r ≡ "")
          × (out ≡ record w {
            status = status_unauthorized;
            content = error_json "missing authorization header";
          }))
      ⊎ ((e : GoError) × ((asked r st).0 ≡ failed e)
          × (out ≡ record w {
            status = status_internal;
            content = error_json "internal server error";
          }))

  -- The service of the application adds nothing to the domain's.
  check-authorize :
      (pat : String) (st : S)
      → check h.authorize pat h.cache_ttl h.keys st ≡ h.authorize pat h.cache_ttl h.keys st
  unfolding check
  check-authorize pat st = >>=-pure (h.authorize pat h.cache_ttl h.keys) st

  answered :
      (r : Incoming) (w out : Outgoing) (st : S) (x : Result AuthzDecision)
      → attempt_reply (asked r st).0 ≡ returned x
      → out ≡ answer h w x
      → IsAnswer r w st out
  answered r w out st (err e) got same = inr (inr (inr (e, attempt_reply-eq-err _ got, same)))
  answered r w out st (ok d) got same =
      let gave = attempt_reply-eq-ok _ got in
      elim (Bool-cases d.allow) [
        | inl allowed ↦ inl (d, gave, allowed, same ∙ rw allowed)
        | inr denied ↦ inr (inl (d, gave, denied, same ∙ rw denied))
      ]

  -- A check that returns answers 200 with the headers of an allowed decision, 401 with the reason
  -- of a denied one, 401 where the header is missing, or 500 where the decision failed.
  pub handle_check_returned :
      (r : Incoming) (w out : Outgoing) (st : S)
      → (handle_check h r w st).0 ≡ returned out
      → IsAnswer r w st out
  unfolding handle_check
  handle_check_returned r w out st e = elim (Bool-cases (token_header r == "")) [
    | inl missing ↦ inr (
        inr (
          inl (
            (eq_iff (token_header r) "").0 missing,
            sym (returned-injective _ _ (rw missing at e)),
          )))
    | inr given ↦
        let call = check h.authorize (bare_token (token_header r)) h.cache_ttl h.keys in
        let (x, got, rest) =
          >>=-eq-returned (attempt call) (λ d. pure (answer h w d)) st (rw given at e) in
        answered r w out st x
          (ap (λ (p : Reply AuthzDecision × S). attempt_reply p.0) (sym (check-authorize _ st))
            ∙ got)
          (sym (returned-injective _ _ rest))
  ]
