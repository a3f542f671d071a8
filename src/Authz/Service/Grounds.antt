-- ===== src/Authz/Service/Grounds.antt =====
-- What an allowed decision rests on.
use oauth2_token_exchange.Common.{
  String, true, false, ◌≡◌, ◌≢◌, ◌⊎◌, inl, inr, refl, ap, ◌∙◌, Option, none, some, ◌==◌, eq_iff,
  arith, Bool-cases,
}
use oauth2_token_exchange.Go.Errors.{Result, ok, err}
use oauth2_token_exchange.Go.Act.{returned, attempt, attempt_reply, ◌>>=◌}
use oauth2_token_exchange.Go.Act.Laws.{>>=-eq-returned, attempt_reply-eq-ok}
use oauth2_token_exchange.Go.Map.{StringMap}
use oauth2_token_exchange.Zitadel.Types.{UserInfo, TokenResponse}
use oauth2_token_exchange.Zitadel.Api.{UserInfoGetter}
use oauth2_token_exchange.Cache.{CachedToken, Duration}
use oauth2_token_exchange.Authz.Types.{
  AuthzDecision, deny, build_decision, build_decision_from_claims,
}
use oauth2_token_exchange.Authz.Claims.{IdTokenClaims, hash_pat, parse_id_token_claims}
use oauth2_token_exchange.Authz.Service.{
  Service, decide_cached, authorize_token, cached_token, token_claims, subject_token_type,
  with_cached, user_info_of, on_miss, with_user_info, with_response, finish, hit,
}

-- ZITADEL gave this answer for the token: it named the token's user, and exchanged that user's name,
-- with the admin token as actor, for a response whose id token holds the claims.
pub record Issued {S : Type 0} (s : Service S) (pat : String) (resp : TokenResponse)
    (claims : IdTokenClaims) : Type 0 where
  pub getter : UserInfoGetter S
  pub wired : s.user_info_getter ≡ some getter
  pub admin : s.admin_pat ≢ ""
  pub before : S
  pub info : UserInfo
  pub asked : (getter.get_user_info pat before).0 ≡ returned (some info)
  pub exchanged :
      (s.token_exchanger.exchange_with_actor info.username subject_token_type s.admin_pat
        (getter.get_user_info pat before).1).0
      ≡ returned (some resp)
  pub parsed : parse_id_token_claims s.json resp.id_token ≡ ok claims

-- The two ways to build a decision agree on what an exchange has put in the cache.
pub build_decision-cached_token :
    (resp : TokenResponse) (claims : IdTokenClaims) (keys : StringMap)
    → build_decision (cached_token resp claims) keys
      ≡ build_decision_from_claims (token_claims resp claims) keys
unfolding build_decision build_decision_from_claims cached_token token_claims
build_decision-cached_token resp claims keys = refl

pub decide_cached-cached_token :
    (resp : TokenResponse) (claims : IdTokenClaims) (keys : StringMap)
    → decide_cached (cached_token resp claims) keys
      ≡ build_decision_from_claims (token_claims resp claims) keys
unfolding decide_cached build_decision build_decision_from_claims cached_token token_claims
decide_cached-cached_token resp claims keys = refl

module _ {S : Type 0} (s : Service S) (ttl : Duration) (keys : StringMap) (pat : String) where
  -- The decision is made of an exchange whose calls began in this state.
  abbrev pub IsFresh : S → AuthzDecision → Type 0
  IsFresh st d =
      (resp : TokenResponse) × (claims : IdTokenClaims) × (issued : Issued s pat resp claims)
      × (issued.before ≡ st)
      × (d ≡ build_decision_from_claims (token_claims resp claims) keys)

  -- The decision is made of a valid token that the cache gave.
  abbrev pub IsCached : S → AuthzDecision → Type 0
  IsCached st d =
      (c : CachedToken) × ((s.token_cache.get (hash_pat s.sha256 pat) st).0 ≡ returned (some c))
      × (c.is_invalid ≡ false)
      × (d ≡ build_decision c keys)

  module _ {d : AuthzDecision} (allowed : d.allow ≡ true) where
    finish_allowed :
        (resp : TokenResponse) (x : Result IdTokenClaims) (st : S)
        → (finish s (hash_pat s.sha256 pat) ttl keys resp x st).0 ≡ returned d
        → (claims : IdTokenClaims) × (x ≡ ok claims)
          × (d ≡ build_decision_from_claims (token_claims resp claims) keys)
    unfolding deny
    finish_allowed resp (err e) st h = absurd (ground arith)
    finish_allowed resp (ok claims) st h = (claims, refl, ground arith)

    with_response_allowed :
        (x : Result (Option TokenResponse)) (st : S)
        → (with_response s (hash_pat s.sha256 pat) ttl keys x st).0 ≡ returned d
        → (resp : TokenResponse) × (claims : IdTokenClaims) × (x ≡ ok (some resp))
          × (parse_id_token_claims s.json resp.id_token ≡ ok claims)
          × (d ≡ build_decision_from_claims (token_claims resp claims) keys)
    unfolding deny
    with_response_allowed (err e) st h = absurd (ground arith)
    with_response_allowed (ok none) st h = cc
    with_response_allowed (ok (some resp)) st h =
        let (claims, parsed, built) =
          finish_allowed resp (parse_id_token_claims s.json resp.id_token) st h in
        (resp, claims, refl, parsed, built)

    with_user_info_allowed :
        (x : Result (Option UserInfo)) (st : S)
        → (with_user_info s (hash_pat s.sha256 pat) ttl keys x st).0 ≡ returned d
        → (info : UserInfo) × (x ≡ ok (some info))
          × ((attempt (
                  s.token_exchanger.exchange_with_actor info.username subject_token_type
                    s.admin_pat)
                >>= with_response s (hash_pat s.sha256 pat) ttl keys)
              st).0
            ≡ returned d
    unfolding deny
    with_user_info_allowed (err e) st h = absurd (ground arith)
    with_user_info_allowed (ok none) st h = cc
    with_user_info_allowed (ok (some info)) st h = (info, refl, ground arith)

    user_info_allowed :
        (getter : Option (UserInfoGetter S)) (st : S)
        → s.user_info_getter ≡ getter
        → s.admin_pat ≢ ""
        → ((attempt (user_info_of s getter pat)
              >>= with_user_info s (hash_pat s.sha256 pat) ttl keys)
            st).0
          ≡ returned d
        → IsFresh st d
    user_info_allowed none st wired admin h = cc
    user_info_allowed (some getter) st wired admin h =
        let (x, got, rest) =
          >>=-eq-returned (attempt (getter.get_user_info pat))
            (with_user_info s (hash_pat s.sha256 pat) ttl keys) st h in
        let (info, same, more) = with_user_info_allowed x _ rest in
        let (y, gave, rest') =
          >>=-eq-returned
            (attempt
              (s.token_exchanger.exchange_with_actor info.username subject_token_type s.admin_pat))
            (with_response s (hash_pat s.sha256 pat) ttl keys) _ more in
        let (resp, claims, same', parsed, built) = with_response_allowed y _ rest' in
        (
          resp,
          claims,
          record {
            getter = getter;
            wired = wired;
            admin = admin;
            before = st;
            info = info;
            asked = attempt_reply-eq-ok _ (got ∙ ap returned same);
            exchanged = attempt_reply-eq-ok _ (gave ∙ ap returned same');
            parsed = parsed;
          },
          refl,
          built,
        )

    on_miss_allowed :
        (st : S) → (on_miss s (hash_pat s.sha256 pat) ttl keys pat st).0 ≡ returned d → IsFresh st d
    unfolding deny
    on_miss_allowed st h = elim (Bool-cases (s.admin_pat == "")) [
      | inl unset ↦ absurd (ground arith)
      | inr set ↦
          user_info_allowed s.user_info_getter st refl (ground (arith, eq_iff s.admin_pat ""))
            (rw set at h)
    ]

    with_cached_allowed :
        (x : Result (Option CachedToken)) (st st1 : S)
        → attempt_reply (s.token_cache.get (hash_pat s.sha256 pat) st).0 ≡ returned x
        → (with_cached s (hash_pat s.sha256 pat) ttl keys pat (hit x) st1).0 ≡ returned d
        → IsCached st d ⊎ IsFresh st1 d
    unfolding deny decide_cached
    with_cached_allowed (err e) st st1 got h = inr (on_miss_allowed st1 h)
    with_cached_allowed (ok none) st st1 got h = inr (on_miss_allowed st1 h)
    with_cached_allowed (ok (some c)) st st1 got h =
        inl (c, attempt_reply-eq-ok _ got, ground arith, ground arith)

    -- A bare token is allowed only if the cache gave a valid token for its hash, or ZITADEL named
    -- its user in the state that the read of the cache has left, and exchanged that user's name
    -- in the next; and the decision is made of that cached token or of that exchange.
    pub authorize_token_allowed :
        (st : S)
        → (authorize_token s pat ttl keys st).0 ≡ returned d
        → IsCached st d ⊎ IsFresh (s.token_cache.get (hash_pat s.sha256 pat) st).1 d
    unfolding authorize_token deny
    authorize_token_allowed st h = elim (Bool-cases (pat == "")) [
      | inl empty ↦ absurd (ground arith)
      | inr solid ↦
          let (x, got, rest) =
            >>=-eq-returned (attempt (s.token_cache.get (hash_pat s.sha256 pat)))
              (λ c. with_cached s (hash_pat s.sha256 pat) ttl keys pat (hit c)) st
              (rw solid at h) in
          with_cached_allowed x st _ got rest
    ]
