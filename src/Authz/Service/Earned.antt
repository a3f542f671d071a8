-- ===== src/Authz/Service/Earned.antt =====
-- What allowed decisions rest on after any history of requests.
use oauth2_token_exchange.Common.{
  String, true, ◌≡◌, inl, inr, refl, ap, ◌∙◌, Option, none, List, [], ◌∷◌, ◌==◌, arith, Bool-cases,
}
use oauth2_token_exchange.Go.Act.{returned}
use oauth2_token_exchange.Go.Map.{StringMap}
use oauth2_token_exchange.Zitadel.Types.{TokenResponse}
use oauth2_token_exchange.Cache.{CachedToken, Duration}
use oauth2_token_exchange.Cache.Laws.{IsLawful}
use oauth2_token_exchange.Authz.Types.{
  AuthzDecision, deny, build_decision, build_decision_from_claims,
}
use oauth2_token_exchange.Authz.Claims.{IdTokenClaims, hash_pat}
use oauth2_token_exchange.Authz.Service.{
  Service, bare_token, authorize_token, authorize_pat, token_claims,
}
use oauth2_token_exchange.Authz.Service.Grounds.{
  Issued, IsCached, authorize_token_allowed, build_decision-cached_token,
}
use oauth2_token_exchange.Authz.Service.History.{IsSeparate, IsSound, authorize_pat-IsSound}

-- The state after a history of requests.
unfoldable pub serve : {S : Type 0} → Service S → Duration → StringMap → List String → S → S
serve s ttl keys [] st = st
serve s ttl keys (pat ∷ pats) st = serve s ttl keys pats (authorize_pat s pat ttl keys st).1

-- The decision is made of an exchange that ZITADEL made for a token with the hash of this one.
abbrev pub IsEarned : {S : Type 0} → Service S → StringMap → String → AuthzDecision → Type 0
IsEarned s keys pat d =
    (other : String) × (resp : TokenResponse) × (claims : IdTokenClaims) × (hash_pat s.sha256 other
      ≡ hash_pat s.sha256 pat)
    × Issued s other resp claims
    × (d ≡ build_decision_from_claims (token_claims resp claims) keys)

module _ {S : Type 0} (s : Service S) (held : S → String → Option CachedToken)
    (lawful : IsLawful s.token_cache held) (separate : IsSeparate s held) where
  module _ (ttl : Duration) (keys : StringMap) where
    serve-IsSound :
        (pats : List String) (st : S)
        → IsSound s held st
        → IsSound s held (serve s ttl keys pats st)
    unfolding serve
    serve-IsSound [] st sound = sound
    serve-IsSound (pat ∷ pats) st sound =
        serve-IsSound pats _ (authorize_pat-IsSound s held lawful separate ttl keys pat st sound)

    IsEarned-of_cached :
        (pat : String) (st : S) (d : AuthzDecision)
        → IsSound s held st
        → IsCached s ttl keys pat st d
        → IsEarned s keys pat d
    IsEarned-of_cached pat st d sound (c, got, valid, built) =
        elim (sound.genuine _ c (lawful.get_sound (hash_pat s.sha256 pat) st c got)) [
          | inl invalid ↦ absurd (ground arith)
          | inr (other, resp, claims, same, issued, made) ↦ (
            other,
            resp,
            claims,
            same,
            issued,
            built
                ∙ ap (λ t. build_decision t keys) made
                ∙ build_decision-cached_token resp claims keys,
          )
        ]

    authorize_token-IsEarned :
        (pat : String) (st : S) {d : AuthzDecision}
        → IsSound s held st
        → (authorize_token s pat ttl keys st).0 ≡ returned d
        → d.allow ≡ true
        → IsEarned s keys pat d
    authorize_token-IsEarned pat st {d} sound h allowed =
        elim (authorize_token_allowed s ttl keys pat allowed st h) [
          | inl cached ↦ IsEarned-of_cached pat st d sound cached
          | inr (resp, claims, issued, _, built) ↦ (pat, resp, claims, refl, issued, built)
        ]

    -- After any history of requests on an empty cache, a request is allowed only on the strength
    -- of an exchange that ZITADEL made for a token with the hash of its bare token, and the
    -- decision is the one made of that exchange's claims. It holds if the cache is lawful, and
    -- the calls of ZITADEL bring nothing into it.
    pub allowed-IsEarned :
        (pats : List String) (pat : String) (st : S) (d : AuthzDecision)
        → ((h : String) → held st h ≡ none)
        → (authorize_pat s pat ttl keys (serve s ttl keys pats st)).0 ≡ returned d
        → d.allow ≡ true
        → IsEarned s keys (bare_token pat) d
    unfolding authorize_pat deny
    allowed-IsEarned pats pat st d empty h allowed =
        let start : IsSound s held st = record {
          genuine = λ k t e. absurd (ground (arith, empty k));
        } in
        let sound = serve-IsSound pats st start in
        elim (Bool-cases (pat == "")) [
          | inl blank ↦ absurd (ground arith)
          | inr given ↦
              authorize_token-IsEarned (bare_token pat) (serve s ttl keys pats st) sound
                (rw given at h) allowed
        ]
