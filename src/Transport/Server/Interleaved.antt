-- ===== src/Transport/Server/Interleaved.antt =====
-- What the whole server guarantees of checks that run at once, over the client of ZITADEL and the
-- cache over Redis.
use mathlib.Core.Option.{some-injective}
use oauth2_token_exchange.Common.{
  String, true, Option, none, some, List, ◌∷◌, ◌++◌, ◌≡◌, inl, inr, sym, subst,
}
use oauth2_token_exchange.Go.Errors.{ok}
use oauth2_token_exchange.Go.Act.{returned}
use oauth2_token_exchange.Go.Map.{StringMap}
use oauth2_token_exchange.Zitadel.Api.{UserInfoGetter}
use oauth2_token_exchange.Zitadel.Types.{
  UserInfo, TokenResponse, no_user_info, decode_user_info, no_token_response, decode_token_response,
}
use oauth2_token_exchange.Zitadel.Client.{new_client}
use oauth2_token_exchange.Zitadel.Service.{client}
use oauth2_token_exchange.Zitadel.Accepted.{
  IsAnswered, user_info_request, actor_request, get_user_info-IsAnswered,
  exchange_with_actor-IsAnswered,
}
use oauth2_token_exchange.Cache.{CachedToken, Duration, Redis, redis_cache}
use oauth2_token_exchange.Cache.Laws.{IsLawful}
use oauth2_token_exchange.Authz.Types.{AuthzDecision, build_decision_from_claims}
use oauth2_token_exchange.Authz.Claims.{IdTokenClaims, hash_pat, parse_id_token_claims}
use oauth2_token_exchange.Authz.Service.{
  Service, token_claims, new_service, new_service_with_machine_user_support,
}
use oauth2_token_exchange.Authz.Service.History.{IsSeparate}
use oauth2_token_exchange.Authz.Service.Steps.{Pc, answered}
use oauth2_token_exchange.Authz.Service.Steps.Interleaved.{System, Reach}
use oauth2_token_exchange.Authz.Service.Steps.Right.{IsGranted}
use oauth2_token_exchange.Authz.Service.Steps.Sound.{WasReached, Reach-IsGrounded}
use oauth2_token_exchange.Transport.Config.{Config}
use oauth2_token_exchange.Transport.Server.{Platform, authz_domain_service, zitadel_client}
use oauth2_token_exchange.Transport.Server.Laws.{
  settings, plain_service, full_service, authz_domain_service-cases, authz_cache-IsLawful,
}

module _ {S O : Type 0} (p : Platform S O) (cfg : Config) (redis : Redis S) where
  -- In one of the worlds ZITADEL names the token's user, and in one it exchanges the name of that user
  -- with the admin token as actor: each answer is below status 400, to the request written out in
  -- Zitadel/Accepted.antt, and the user and the response are what its document decodes to.
  abbrev pub IsAcceptedWithin : (S → Type 0) → String → TokenResponse → Type 0
  IsAcceptedWithin Was pat resp =
      (before : S) × (after : S) × (info : UserInfo) × Was before
      × IsAnswered p.outside (settings p cfg redis) decode_user_info no_user_info
          (user_info_request p.outside (settings p cfg redis) pat before) before info
      × Was after
      × IsAnswered p.outside (settings p cfg redis) decode_token_response no_token_response
          (actor_request p.outside (settings p cfg redis) info.username
            "urn:zitadel:params:oauth:token-type:user_id" cfg.auth.admin_pat after)
          after resp

  module _ (Was : S → Type 0) (pat : String) (resp : TokenResponse) (claims : IdTokenClaims) where
    plain-IsGranted : ¬ IsGranted (plain_service p cfg redis) Was pat resp claims
    unfolding new_service
    plain-IsGranted granted = let e = granted.named.wired in cc

    full-IsGranted :
        IsGranted (full_service p cfg redis) Was pat resp claims → IsAcceptedWithin Was pat resp
    unfolding new_service_with_machine_user_support zitadel_client client new_client
    full-IsGranted granted =
        let named = granted.named in
        let got =
          subst
            (λ (g : UserInfoGetter S).
              (g.get_user_info pat named.asked_in).0 ≡ returned (some granted.info))
            (sym (some-injective _ _ named.wired)) named.asked in
        let (info, named_so, asked) =
          get_user_info-IsAnswered p.outside (settings p cfg redis) pat named.asked_in _ got in
        let (token, given_so, exchanged) =
          exchange_with_actor-IsAnswered p.outside (settings p cfg redis) _ _ _ granted.exchanged_in
            _ granted.exchanged in
        (
          named.asked_in,
          granted.exchanged_in,
          granted.info,
          named.was,
          subst
              (λ (u : UserInfo).
                IsAnswered p.outside (settings p cfg redis) decode_user_info no_user_info
                  (user_info_request p.outside (settings p cfg redis) pat named.asked_in)
                  named.asked_in u)
              (sym (some-injective _ _ named_so)) asked,
          granted.was,
          subst
              (λ (t : TokenResponse).
                IsAnswered p.outside (settings p cfg redis) decode_token_response no_token_response
                  (actor_request p.outside (settings p cfg redis) granted.info.username
                    "urn:zitadel:params:oauth:token-type:user_id" cfg.auth.admin_pat
                    granted.exchanged_in)
                  granted.exchanged_in t)
              (sym (some-injective _ _ given_so)) exchanged,
        )

    -- What the server's service was granted ZITADEL has accepted.
    IsGranted-accepted :
        IsGranted (authz_domain_service p cfg redis) Was pat resp claims
        → IsAcceptedWithin Was pat resp
    IsGranted-accepted granted = elim (authz_domain_service-cases p cfg redis) [
      | inl plain ↦ absurd (
          plain-IsGranted
            (subst (λ (s : Service S). IsGranted s Was pat resp claims) plain granted))
      | inr full ↦
          full-IsGranted (subst (λ (s : Service S). IsGranted s Was pat resp claims) full granted)
    ]

  module _ (held : S → String → Option CachedToken)
      (lawful : IsLawful (redis_cache redis p.json) held)
      (separate : IsSeparate (authz_domain_service p cfg redis) held) (ttl : Duration)
      (keys : StringMap) (st : S) where
    abbrev s : Service S
    s = authz_domain_service p cfg redis

    -- The worlds that some interleaving of checks reaches.
    abbrev pub WasServed : S → Type 0
    WasServed =
        WasReached s held (authz_cache-IsLawful p cfg redis held lawful) separate ttl keys st

    -- ZITADEL has accepted a token with this hash, and the decision is made of its response and of the
    -- claims of the response's id token.
    abbrev pub IsBackedDecision : String → AuthzDecision → Type 0
    IsBackedDecision pat d =
        (other : String) × (resp : TokenResponse) × (claims : IdTokenClaims) × (hash_pat s.sha256
            other
          ≡ hash_pat s.sha256 pat)
        × IsAcceptedWithin WasServed other resp
        × (parse_id_token_claims s.json resp.id_token ≡ ok claims)
        × (d ≡ build_decision_from_claims (token_claims resp claims) keys)

    -- However the checks of the server interleave, call by call, with one another and with
    -- whatever else brings nothing into the cache, one that has ended with an allowed decision,
    -- from a world whose cache is empty, has the decision that is made of the claims of an id
    -- token, for a token with the hash of its own that ZITADEL accepts: in worlds that some
    -- interleaving reaches, ZITADEL has answered, below status 400, the GET request for user
    -- information with that token as bearer, and the POST request for an exchange, with the admin
    -- token as actor, of the name of the user that the first answer's document holds; and the id
    -- token is the one that the document of the second holds. It holds if the cache over Redis is
    -- lawful, and the calls of ZITADEL bring nothing into the cache.
    pub Reach-accepted :
        {σ : System S} (before : List Pc) (pat : String) (d : AuthzDecision) (after : List Pc)
        → ((h : String) → held st h ≡ none)
        → Reach s held ttl keys st σ
        → σ.requests ≡ before ++ answered pat (returned d) ∷ after
        → d.allow ≡ true
        → IsBackedDecision pat d
    Reach-accepted before pat d after empty reach e allowed =
        let (other, resp, claims, hashed, granted, built) =
          Reach-IsGrounded s held (authz_cache-IsLawful p cfg redis held lawful) separate ttl keys
            st before pat d after empty reach e allowed in
        (
          other,
          resp,
          claims,
          hashed,
          IsGranted-accepted WasServed other resp claims granted,
          granted.parsed,
          built,
        )
