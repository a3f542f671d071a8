-- ===== src/Authz/Service/Steps.antt =====
-- `AuthorizePAT` of internal/domain/authz/service.go one call of the world at a time, as the
-- goroutines of several requests run it.
pub mod Run
pub mod Interleaved
pub mod Right
pub mod Sound
pub mod Ends
use oauth2_token_exchange.Common.{
  ℕ, zero, suc, String, ◌<>◌, Option, none, some, ◌==◌, if◌then◌else◌,
}
use oauth2_token_exchange.Go.Errors.{GoError, error_text, Result, ok, err}
use oauth2_token_exchange.Go.Act.{Reply, returned, failed, panicked}
use oauth2_token_exchange.Go.Map.{StringMap}
use oauth2_token_exchange.Zitadel.Types.{UserInfo, TokenResponse}
use oauth2_token_exchange.Zitadel.Api.{UserInfoGetter}
use oauth2_token_exchange.Zitadel.Users.{nil_dereference}
use oauth2_token_exchange.Cache.{CachedToken, Duration}
use oauth2_token_exchange.Authz.Types.{AuthzDecision, deny, build_decision_from_claims}
use oauth2_token_exchange.Authz.Claims.{IdTokenClaims, hash_pat, parse_id_token_claims}
use oauth2_token_exchange.Authz.Service.{
  Service, subject_token_type, bare_token, invalid_token, cached_token, token_claims, decide_cached,
}

-- Where a request stands, with its bare token and the local variables that are live there: before
-- the read of the cache, the question for the user, the exchange, and the write to the cache; or at
-- its end.
pub data Pc : Type 0 where
  looking : String → Pc
  asking : String → Pc
  exchanging : String → UserInfo → Pc
  storing : String → CachedToken → AuthzDecision → Pc
  answered : String → Reply AuthzDecision → Pc

abbrev pub denied : String → String → Pc
denied pat reason = answered pat (returned (deny reason))

-- From the call to the read of the cache.
unfoldable pub begin : String → Pc
unfolding bare_token
begin pat =
    if pat == ""
    then denied "" "PAT is empty"
    else if bare_token pat == ""
    then denied "" "PAT is empty after trimming"
    else looking (bare_token pat)

module _ {S : Type 0} (s : Service S) (ttl : Duration) (keys : StringMap) where
  abbrev missed : String → Pc
  missed pat = if s.admin_pat == "" then denied pat "admin PAT is not set" else asking pat

  abbrev pub after_get : String → Reply (Option CachedToken) → Pc
  after_get pat (returned none) = missed pat
  after_get pat (returned (some cached)) = answered pat (returned (decide_cached cached keys))
  after_get pat (failed e) = missed pat
  after_get pat (panicked text) = answered pat (panicked text)

  abbrev pub after_user_info : String → Reply (Option UserInfo) → Pc
  after_user_info pat (returned none) = answered pat (panicked nil_dereference)
  after_user_info pat (returned (some info)) =
      if s.is_client
      then exchanging pat info
      else denied pat "token exchanger is not a zitadel client"
  after_user_info pat (failed e) = storing pat invalid_token (deny (error_text e))
  after_user_info pat (panicked text) = answered pat (panicked text)

  abbrev pub after_parse : String → TokenResponse → Result IdTokenClaims → Pc
  after_parse pat resp (ok claims) =
      storing pat (cached_token resp claims)
        (build_decision_from_claims (token_claims resp claims) keys)
  after_parse pat resp (err e) = denied pat ("parse id token failed: " <> error_text e)

  abbrev pub after_exchange : String → Reply (Option TokenResponse) → Pc
  after_exchange pat (returned none) = answered pat (panicked nil_dereference)
  after_exchange pat (returned (some resp)) =
      after_parse pat resp (parse_id_token_claims s.json resp.id_token)
  after_exchange pat (failed e) = denied pat ("token exchange with actor failed: " <> error_text e)
  after_exchange pat (panicked text) = answered pat (panicked text)

  abbrev pub after_set : String → AuthzDecision → Reply (Unit {0}) → Pc
  after_set pat decision (panicked text) = answered pat (panicked text)
  after_set pat decision _ = answered pat (returned decision)

  abbrev pub ask : Option (UserInfoGetter S) → String → S → Pc × S
  ask none pat st = (answered pat (panicked nil_dereference), st)
  ask (some getter) pat st =
      let (r, st') = getter.get_user_info pat st in (after_user_info pat r, st')

  -- One call, and what the request does up to its next one.
  unfoldable pub step : Pc → S → Pc × S
  step (looking pat) st =
      let (r, st') = s.token_cache.get (hash_pat s.sha256 pat) st in (after_get pat r, st')
  step (asking pat) st = ask s.user_info_getter pat st
  step (exchanging pat info) st =
      let (r, st') =
        s.token_exchanger.exchange_with_actor info.username subject_token_type s.admin_pat st in
      (after_exchange pat r, st')
  step (storing pat token decision) st =
      let (r, st') = s.token_cache.set (hash_pat s.sha256 pat) token ttl st in
      (after_set pat decision r, st')
  step (answered pat reply) st = (answered pat reply, st)

  -- A request that runs alone, for a number of steps.
  unfoldable pub run : ℕ → Pc × S → Pc × S
  unfolding step
  run zero at = at
  run (suc n) (p, st) = run n (step p st)
