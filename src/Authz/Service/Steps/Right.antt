-- ===== src/Authz/Service/Steps/Right.antt =====
-- What a request of internal/domain/authz/service.go knows at each place, and that it comes to know it
-- by the answer of the call before.
use oauth2_token_exchange.Common.{
  String, ◌<>◌, ◌==◌, if◌then◌else◌, Bool, true, false, ◌≡◌, ◌⊎◌, inl, inr, refl, ap, ◌∙◌, Option,
  none, some, arith,
}
use oauth2_token_exchange.Go.Errors.{error_text, Result, ok, err}
use oauth2_token_exchange.Go.Act.{Reply, returned, failed, panicked}
use oauth2_token_exchange.Go.Map.{StringMap}
use oauth2_token_exchange.Zitadel.Types.{UserInfo, TokenResponse}
use oauth2_token_exchange.Zitadel.Api.{UserInfoGetter}
use oauth2_token_exchange.Cache.{CachedToken, Duration}
use oauth2_token_exchange.Authz.Types.{AuthzDecision, deny, build_decision_from_claims}
use oauth2_token_exchange.Authz.Claims.{IdTokenClaims, hash_pat, parse_id_token_claims}
use oauth2_token_exchange.Authz.Service.{
  Service, bare_token, subject_token_type, cached_token, token_claims, decide_cached,
}
use oauth2_token_exchange.Authz.Service.Grounds.{decide_cached-cached_token}
use oauth2_token_exchange.Authz.Service.Steps.{
  Pc, denied, looking, asking, exchanging, storing, answered, begin, after_get, after_user_info,
  after_parse, after_exchange, after_set, missed,
}

-- Facts of the worlds in which `Was` holds.
module _ {S : Type 0} (s : Service S) (Was : S → Type 0) where
  -- In one of these worlds ZITADEL names the token's user.
  pub record IsNamed (pat : String) (info : UserInfo) : Type 0 where
    pub getter : UserInfoGetter S
    pub wired : s.user_info_getter ≡ some getter
    pub asked_in : S
    pub was : Was asked_in
    pub asked : (getter.get_user_info pat asked_in).0 ≡ returned (some info)

  -- In one world ZITADEL names the token's user, and in another it exchanges that user's name for a
  -- response whose id token holds the claims.
  pub record IsGranted (pat : String) (resp : TokenResponse) (claims : IdTokenClaims) : Type 0 where
    pub info : UserInfo
    pub named : IsNamed pat info
    pub exchanged_in : S
    pub was : Was exchanged_in
    pub exchanged :
        (s.token_exchanger.exchange_with_actor info.username subject_token_type s.admin_pat
          exchanged_in).0
        ≡ returned (some resp)
    pub parsed : parse_id_token_claims s.json resp.id_token ≡ ok claims

  -- A token marked invalid, or one made of an exchange for a token with this hash.
  abbrev pub IsGenuine : String → CachedToken → Type 0
  IsGenuine h t =
      (t.is_invalid ≡ true)
      ⊎ ((pat : String) × (resp : TokenResponse) × (claims : IdTokenClaims) × (hash_pat s.sha256 pat
            ≡ h)
          × IsGranted pat resp claims
          × (t ≡ cached_token resp claims))

  module _ (keys : StringMap) where
    -- The decision is made of an exchange for a token with the hash of this one.
    abbrev pub IsGrounded : String → AuthzDecision → Type 0
    IsGrounded pat d =
        (other : String) × (resp : TokenResponse) × (claims : IdTokenClaims) × (hash_pat s.sha256
            other
          ≡ hash_pat s.sha256 pat)
        × IsGranted other resp claims
        × (d ≡ build_decision_from_claims (token_claims resp claims) keys)

    abbrev AllowsRightly : String → AuthzDecision → Type 0
    AllowsRightly pat d = d.allow ≡ true → IsGrounded pat d

    -- What a request knows at each place.
    abbrev pub IsRight : Pc → Type 0
    IsRight (looking pat) = Unit
    IsRight (asking pat) = Unit
    IsRight (exchanging pat info) = IsNamed pat info
    IsRight (storing pat t d) = IsGenuine (hash_pat s.sha256 pat) t × AllowsRightly pat d
    IsRight (answered pat (returned d)) = AllowsRightly pat d
    IsRight (answered pat _) = Unit

    denied-AllowsRightly : (pat reason : String) → AllowsRightly pat (deny reason)
    unfolding deny
    denied-AllowsRightly pat reason allowed = cc

    decide_cached-AllowsRightly :
        (pat : String) (t : CachedToken)
        → IsGenuine (hash_pat s.sha256 pat) t
        → AllowsRightly pat (decide_cached t keys)
    unfolding decide_cached deny
    decide_cached-AllowsRightly pat t (inl invalid) allowed = absurd (ground arith)
    decide_cached-AllowsRightly pat t (inr (other, resp, claims, same, granted, made)) allowed = (
      other,
      resp,
      claims,
      same,
      granted,
      ap (λ u. decide_cached u keys) made ∙ decide_cached-cached_token resp claims keys,
    )

    if-IsRight : (b : Bool) (p q : Pc) → IsRight p → IsRight q → IsRight (if b then p else q)
    if-IsRight true p q h k = h
    if-IsRight false p q h k = k

    pub begin-IsRight : (pat : String) → IsRight (begin pat)
    unfolding begin
    begin-IsRight pat =
        if-IsRight (pat == "") (denied "" "PAT is empty")
          (if bare_token pat == ""
            then denied "" "PAT is empty after trimming"
            else looking (bare_token pat))
          (denied-AllowsRightly "" "PAT is empty")
          (if-IsRight (bare_token pat == "") (denied "" "PAT is empty after trimming")
            (looking (bare_token pat)) (denied-AllowsRightly "" "PAT is empty after trimming") tt)

    module _ (ttl : Duration) (pat : String) where
      missed-IsRight : IsRight (missed s ttl keys pat)
      missed-IsRight =
          if-IsRight (s.admin_pat == "") (denied pat "admin PAT is not set") (asking pat)
            (denied-AllowsRightly pat "admin PAT is not set") tt

      pub after_get-IsRight :
          (r : Reply (Option CachedToken))
          → ((t : CachedToken) → r ≡ returned (some t) → IsGenuine (hash_pat s.sha256 pat) t)
          → IsRight (after_get s ttl keys pat r)
      after_get-IsRight (returned none) h = missed-IsRight
      after_get-IsRight (returned (some t)) h = decide_cached-AllowsRightly pat t (h t refl)
      after_get-IsRight (failed e) h = missed-IsRight
      after_get-IsRight (panicked text) h = tt

      pub after_user_info-IsRight :
          (r : Reply (Option UserInfo))
          → ((info : UserInfo) → r ≡ returned (some info) → IsNamed pat info)
          → IsRight (after_user_info s ttl keys pat r)
      after_user_info-IsRight (returned none) h = tt
      after_user_info-IsRight (returned (some info)) h =
          let reason : String = "token exchanger is not a zitadel client" in
          if-IsRight s.is_client (exchanging pat info) (denied pat reason) (h info refl)
            (denied-AllowsRightly pat reason)
      after_user_info-IsRight (failed e) h = (inl refl, denied-AllowsRightly pat (error_text e))
      after_user_info-IsRight (panicked text) h = tt

      pub after_parse-IsRight :
          (resp : TokenResponse) (x : Result IdTokenClaims)
          → ((claims : IdTokenClaims) → x ≡ ok claims → IsGranted pat resp claims)
          → IsRight (after_parse s ttl keys pat resp x)
      after_parse-IsRight resp (ok claims) h =
          let granted = h claims refl in
          (
            inr (pat, resp, claims, refl, granted, refl),
            λ allowed. (pat, resp, claims, refl, granted, refl),
          )
      after_parse-IsRight resp (err e) h =
          denied-AllowsRightly pat ("parse id token failed: " <> error_text e)

      pub after_exchange-IsRight :
          (r : Reply (Option TokenResponse))
          → ((resp : TokenResponse) (claims : IdTokenClaims)
              → r ≡ returned (some resp)
              → parse_id_token_claims s.json resp.id_token ≡ ok claims
              → IsGranted pat resp claims)
          → IsRight (after_exchange s ttl keys pat r)
      after_exchange-IsRight (returned none) h = tt
      after_exchange-IsRight (returned (some resp)) h =
          after_parse-IsRight resp _ (λ claims e. h resp claims refl e)
      after_exchange-IsRight (failed e) h =
          denied-AllowsRightly pat ("token exchange with actor failed: " <> error_text e)
      after_exchange-IsRight (panicked text) h = tt

      pub after_set-IsRight :
          (d : AuthzDecision) (r : Reply (Unit {0}))
          → AllowsRightly pat d
          → IsRight (after_set s ttl keys pat d r)
      after_set-IsRight d (returned a) h = h
      after_set-IsRight d (failed e) h = h
      after_set-IsRight d (panicked text) h = tt
