-- ===== src/Tests/Steps.antt =====
-- Requests of internal/domain/authz/service.go that run at once, over a cache in memory.
use oauth2_token_exchange.Common.Int.{pos}
use oauth2_token_exchange.Cache.{Duration}
use oauth2_token_exchange.Common.{[], ◌∷◌, ◌≡◌, refl, arith}
use oauth2_token_exchange.Go.Act.{returned}
use oauth2_token_exchange.Authz.Types.{AuthzDecision, build_decision_from_claims, build_decision}
use oauth2_token_exchange.Authz.Claims.{hash_pat, parse_id_token_claims}
use oauth2_token_exchange.Authz.Service.{authorize_pat, bare_token, cached_token, token_claims}
use oauth2_token_exchange.Authz.Service.Steps.{
  looking, asking, exchanging, storing, answered, begin, step, run,
}
use oauth2_token_exchange.Authz.Service.Steps.Ends.{turns, IsAnswered, turns-IsAnswered}
use oauth2_token_exchange.Authz.Service.Steps.Run.{run-begin}
use oauth2_token_exchange.Authz.Service.Steps.Interleaved.{
  System, arrive, work, Reach, start, later,
}
use oauth2_token_exchange.Authz.Service.Steps.Right.{IsGrounded}
use oauth2_token_exchange.Authz.Service.Steps.Sound.{WasReached, Reach-IsGrounded}
use oauth2_token_exchange.Tests.Memory.{
  Memory, find, memory_cache-IsLawful, the_user, the_response, the_claims, the_service,
  the_service-IsSeparate, keys,
}

abbrev ttl : Duration
ttl = pos 300

-- The requests with the tokens `secret` and `other`, of which ZITADEL knows the first.
abbrev both : System Memory
both = record { world = []; requests = looking "secret" ∷ looking "other" ∷ [] }

abbrev decision : AuthzDecision
decision = build_decision_from_claims (token_claims the_response the_claims) keys

abbrev crossed : System Memory
crossed = record {
  world = (hash_pat the_service.sha256 "secret", cached_token the_response the_claims) ∷ [];
  requests = answered "secret" (returned decision) ∷ asking "other" ∷ [];
}

crossed-reached : Reach the_service find ttl keys [] crossed
unfolding begin step parse_id_token_claims find
crossed-reached =
    later
      (later
        (later
          (later
            (later (later (later start (arrive "other")) (arrive "secret"))
              (work [] (looking "secret") (looking "other" ∷ []) refl))
            (work (asking "secret" ∷ []) (looking "other") [] refl))
          (work [] (asking "secret") (asking "other" ∷ []) refl))
        (work [] (exchanging "secret" the_user) (asking "other" ∷ []) refl))
      (work [] (storing "secret" (cached_token the_response the_claims) decision)
        (asking "other" ∷ []) refl)

Reach-IsGrounded_example :
    IsGrounded the_service
      (WasReached the_service find memory_cache-IsLawful the_service-IsSeparate ttl keys [])
      keys
      "secret"
      decision
unfolding build_decision_from_claims build_decision find
Reach-IsGrounded_example =
    Reach-IsGrounded the_service find memory_cache-IsLawful the_service-IsSeparate ttl keys [] []
      "secret" decision (asking "other" ∷ []) (λ h. refl) crossed-reached refl refl

run-begin_example : run the_service ttl keys 5 (begin "Bearer secret", []) ≡ (
  answered (bare_token "Bearer secret") (authorize_pat the_service "Bearer secret" ttl keys []).0,
  (authorize_pat the_service "Bearer secret" ttl keys []).1,
)
run-begin_example = run-begin the_service ttl keys "Bearer secret" 1 []

turns-IsAnswered_example :
    IsAnswered the_service ttl keys
      (turns the_service ttl keys (crossed.world ∷ [] ∷ crossed.world ∷ [] ∷ []) (begin "other"))
turns-IsAnswered_example =
    turns-IsAnswered the_service ttl keys (crossed.world ∷ [] ∷ crossed.world ∷ [] ∷ []) "other"
      (omega arith)
