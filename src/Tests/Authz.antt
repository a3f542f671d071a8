-- ===== src/Tests/Authz.antt =====
-- Requests to the authorization service, over the cache in memory.
use oauth2_token_exchange.Authz.Types.Headers.{user_id_header}
use oauth2_token_exchange.Go.Map.{lookup, get}
use oauth2_token_exchange.Common.Int.{pos}
use oauth2_token_exchange.Common.{
  String, ◌<>◌, ◌==◌, if◌then◌else◌, none, some, [], ◌∷◌, ◌≡◌, ◌≢◌, ◌⊎◌, refl,
}
use oauth2_token_exchange.Go.Errors.{message, sentinel, cache_miss, error_text}
use oauth2_token_exchange.Go.Act.{returned, failed}
use oauth2_token_exchange.Cache.{Duration}
use oauth2_token_exchange.Authz.Types.{
  AuthzDecision, deny, build_decision, build_decision_from_claims,
}
use oauth2_token_exchange.Authz.Claims.{hash_pat, parse_id_token_claims}
use oauth2_token_exchange.Authz.Service.{
  authorize_pat, authorize_token, bare_token, cached_token, token_claims, invalid_token,
  decide_cached,
}
use oauth2_token_exchange.Authz.Service.Branches.{
  authorize_pat-ne-failed, authorize_token_refused, authorize_token_exchange_failed,
  authorize_token_exchanged,
}
use oauth2_token_exchange.Authz.Service.Grounds.{IsFresh, IsCached, authorize_token_allowed}
use oauth2_token_exchange.Authz.Service.History.{IsSound, authorize_pat-IsSound}
use oauth2_token_exchange.Authz.Service.Earned.{IsEarned, serve, allowed-IsEarned}
use oauth2_token_exchange.Authz.Service.Repeat.{authorize_token_again}
use oauth2_token_exchange.Zitadel.Api.{TokenExchanger}
use oauth2_token_exchange.Tests.Memory.{
  Memory, find, memory_cache-IsLawful, the_service, the_service-IsSeparate, keys, the_user,
  the_response, the_claims, getter,
}

abbrev ttl : Duration
ttl = pos 300

abbrev the_decision : AuthzDecision
the_decision = build_decision_from_claims (token_claims the_response the_claims) keys

abbrev hash : String
hash = hash_pat the_service.sha256 "secret"

abbrev after : Memory
after = (hash, cached_token the_response the_claims) ∷ []

first_run : authorize_pat the_service "Bearer secret" ttl keys [] ≡ (returned the_decision, after)
unfolding authorize_pat parse_id_token_claims find hash_pat cached_token token_claims
first_run = refl

denied_run :
    authorize_pat the_service " other " ttl keys []
    ≡ (returned (deny "denied"), (hash_pat the_service.sha256 "other", invalid_token) ∷ [])
unfolding authorize_pat find error_text hash_pat
denied_run = refl

allowed-IsEarned_example : IsEarned the_service keys (bare_token "Bearer secret") the_decision
unfolding serve authorize_pat parse_id_token_claims find hash_pat cached_token token_claims
    build_decision_from_claims decide_cached build_decision
allowed-IsEarned_example =
    allowed-IsEarned the_service find memory_cache-IsLawful the_service-IsSeparate ttl keys
      ("secret" ∷ "other" ∷ []) "Bearer secret" [] the_decision (λ h. refl) refl refl

authorize_token_again_example :
    authorize_token the_service "secret" ttl keys after ≡ (returned the_decision, after)
unfolding authorize_token parse_id_token_claims find hash_pat cached_token token_claims
    build_decision_from_claims
authorize_token_again_example =
    authorize_token_again the_service find memory_cache-IsLawful (λ h t ttl m. refl) ttl keys
      "secret" [] after the_decision (cached_token the_response the_claims) (λ e. cc) refl refl refl

empty-IsSound : IsSound the_service find []
unfolding find
empty-IsSound = record { genuine = λ h t e. cc }

authorize_pat-IsSound_example : IsSound the_service find after
unfolding authorize_pat parse_id_token_claims find hash_pat cached_token token_claims
authorize_pat-IsSound_example =
    authorize_pat-IsSound the_service find memory_cache-IsLawful the_service-IsSeparate ttl keys
      "secret" [] empty-IsSound

authorize_token_allowed_example :
    IsCached the_service ttl keys "secret" [] the_decision
    ⊎ IsFresh the_service ttl keys "secret" [] the_decision
unfolding authorize_token parse_id_token_claims find hash_pat cached_token token_claims
    build_decision_from_claims
authorize_token_allowed_example = authorize_token_allowed the_service ttl keys "secret" refl [] refl

authorize_pat-ne-failed_example :
    (authorize_pat the_service "secret" ttl keys []).0 ≢ failed (message "x")
authorize_pat-ne-failed_example =
    authorize_pat-ne-failed the_service ttl keys "secret" [] (message "x")

authorize_token_refused_example : authorize_token the_service "other" ttl keys [] ≡ (
  returned (deny (error_text (message "denied"))),
  (hash_pat the_service.sha256 "other", invalid_token) ∷ [],
)
unfolding find
authorize_token_refused_example =
    authorize_token_refused the_service ttl keys "other" [] (λ e. cc) (failed (sentinel cache_miss))
      [] refl tt getter (λ e. cc) refl (message "denied") []
      ((hash_pat the_service.sha256 "other", invalid_token) ∷ []) (returned tt) refl refl tt

abbrev failing_exchanger : TokenExchanger Memory
failing_exchanger = record {
  exchange = λ pat m. (failed (message "down"), m);
  exchange_with_actor = λ subject type actor m. (failed (message "down"), m);
}

authorize_token_exchange_failed_example :
    authorize_token
      (record the_service { token_exchanger = failing_exchanger })
      "secret"
      ttl
      keys
      []
    ≡ (returned (deny ("token exchange with actor failed: " <> error_text (message "down"))), [])
unfolding find
authorize_token_exchange_failed_example =
    authorize_token_exchange_failed (record the_service { token_exchanger = failing_exchanger }) ttl
      keys "secret" [] (λ e. cc) (failed (sentinel cache_miss)) [] refl tt getter (λ e. cc) refl
      the_user [] refl refl (message "down") [] refl

authorize_token_exchanged_example :
    authorize_token the_service "secret" ttl keys [] ≡ (returned the_decision, after)
unfolding find parse_id_token_claims
authorize_token_exchanged_example =
    authorize_token_exchanged the_service ttl keys "secret" [] (λ e. cc)
      (failed (sentinel cache_miss)) [] refl tt getter (λ e. cc) refl the_user [] refl refl
      the_response the_claims [] after (returned tt) refl refl refl tt

user_id_header_example :
    lookup
      (get keys "user_id")
      (build_decision_from_claims (token_claims the_response the_claims) keys).headers
    ≡ (if "1" == "" then none else some "1")
unfolding get token_claims
user_id_header_example =
    user_id_header keys (token_claims the_response the_claims) (λ e. cc) (λ e. cc) (λ e. cc)
      (λ e. cc)
