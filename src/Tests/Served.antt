-- ===== src/Tests/Served.antt =====
-- Checks of the whole server, over the stand-in for the network and a Redis that keeps what the cache
-- writes: the second check is answered from the cache.
use mathlib.Core.Option.{some-injective}
use oauth2_token_exchange.Common.{
  ℕ, zero, String, Option, some, List, [], ◌∷◌, ◌≡◌, refl, sym, subst,
}
use oauth2_token_exchange.Go.Errors.{Result, ok}
use oauth2_token_exchange.Go.Json.{Json, JsonText, object, member, end, text}
use oauth2_token_exchange.Cache.{
  CachedToken, Duration, redis_cache, decode_cached_token, encode_cached_token,
}
use oauth2_token_exchange.Cache.Laws.{IsLawful, PrintsTokens, held_tokens, redis_cache-IsLawful}
use oauth2_token_exchange.Zitadel.Api.{UserInfoGetter}
use oauth2_token_exchange.Zitadel.Types.{decode_token_response, decode_user_info}
use oauth2_token_exchange.Http.{with_auth_token, with_basic_auth, with_body, with_content_type}
use oauth2_token_exchange.Zitadel.Tokens.{exchange_with_actor, get_user_info}
use oauth2_token_exchange.Authz.Types.{AuthzDecision, build_decision, build_decision_from_claims}
use oauth2_token_exchange.Authz.Claims.{hash_pat, parse_id_token_claims}
use oauth2_token_exchange.Authz.Service.{
  Service, decide_cached, authorize_pat, cached_token, token_claims,
}
use oauth2_token_exchange.Authz.Service.History.{IsSeparate}
use oauth2_token_exchange.Authz.Service.Steps.{Pc, begin, run}
use oauth2_token_exchange.Authz.Service.Steps.Interleaved.{
  System, Reach, start, later, arrive, Reach-run,
}
use oauth2_token_exchange.Transport.Check.{handle_check}
use oauth2_token_exchange.Transport.Server.{Platform, authz_domain_service, new_handler}
use oauth2_token_exchange.Transport.Server.Interleaved.{IsBackedDecision, Reach-accepted}
use oauth2_token_exchange.Transport.Server.Checked.{IsBackedAnswer, handle_check_ok}
use oauth2_token_exchange.Tests.Memory.{the_response, the_claims}
use oauth2_token_exchange.Tests.Redis.{
  Store, join_texts, texts_of, token_or_empty, of_texts, split_texts, look, store_redis,
  store_redis-IsRedis, token_text, token_text-PrintsTokens,
}
use oauth2_token_exchange.Tests.Transport.{platform_over, config, the_request, the_answer}

-- A text that begins with 0 is one that the cache wrote; in any other there are the same claims.
abbrev parsed : List ℕ → Result Json
parsed (zero ∷ bytes) = token_text.parse bytes
parsed _ = ok (object (member "sub" (text "1") (member "email" (text "ada@example.org") end)))

abbrev json_text : JsonText
json_text = record { print = λ v. zero ∷ token_text.print v; parse = parsed }

json_text-PrintsTokens : PrintsTokens json_text
json_text-PrintsTokens = record { parse-print = λ t. token_text-PrintsTokens.parse-print t }

abbrev platform : Platform Store Unit
platform = platform_over store_redis json_text

abbrev service : Service Store
service = authz_domain_service platform config store_redis

abbrev held : Store → String → Option CachedToken
held = held_tokens store_redis json_text json_text-PrintsTokens look store_redis-IsRedis

held-IsLawful : IsLawful (redis_cache store_redis json_text) held
held-IsLawful =
    redis_cache-IsLawful store_redis json_text json_text-PrintsTokens look store_redis-IsRedis

held-IsSeparate : IsSeparate service held
unfolding authz_domain_service get_user_info with_auth_token decode_user_info exchange_with_actor
    with_content_type with_body with_basic_auth decode_token_response
held-IsSeparate = record {
  held-user_info = λ g wired pat h st t e.
      subst (λ (x : UserInfoGetter Store). held (x.get_user_info pat st).1 h ≡ some t)
        (sym (some-injective _ _ wired)) e;
  held-exchange = λ subject type actor h st t e. e;
}

abbrev ttl : Duration
ttl = (new_handler platform config store_redis).cache_ttl

abbrev decision : AuthzDecision
decision =
    build_decision_from_claims (token_claims the_response the_claims)
      (new_handler platform config store_redis).keys

-- The first check has run alone, and then the second.
abbrev first : Pc × Store
first = run service ttl (new_handler platform config store_redis).keys 4 (begin "secret", [])

abbrev second : Pc × Store
second = run service ttl (new_handler platform config store_redis).keys 1 (begin "secret", first.1)

abbrev served_once : System Store
served_once = record { world = first.1; requests = first.0 ∷ [] }

abbrev served_twice : System Store
served_twice = record { world = second.1; requests = second.0 ∷ first.0 ∷ [] }

once-reached : Reach service held ttl (new_handler platform config store_redis).keys [] served_once
once-reached =
    Reach-run service held ttl (new_handler platform config store_redis).keys 4 (begin "secret") []
      [] [] (later start (arrive "secret"))

twice-reached :
    Reach service held ttl (new_handler platform config store_redis).keys [] served_twice
twice-reached =
    Reach-run service held ttl (new_handler platform config store_redis).keys 1 (begin "secret")
      first.1 [] (first.0 ∷ []) (later once-reached (arrive "secret"))

Reach-accepted_example :
    IsBackedDecision platform config store_redis held held-IsLawful held-IsSeparate ttl
      (new_handler platform config store_redis).keys
      []
      "secret"
      decision
unfolding run begin look join_texts texts_of token_or_empty of_texts split_texts
    authz_domain_service get_user_info with_auth_token decode_user_info exchange_with_actor
    with_content_type with_body with_basic_auth decode_token_response parse_id_token_claims
    build_decision_from_claims token_claims cached_token hash_pat decode_cached_token
    encode_cached_token decide_cached build_decision
Reach-accepted_example =
    Reach-accepted platform config store_redis held held-IsLawful held-IsSeparate ttl
      (new_handler platform config store_redis).keys [] [] "secret" decision (first.0 ∷ [])
      (λ h. refl) twice-reached refl refl

handle_check_ok_example :
    IsBackedAnswer platform config store_redis held held-IsLawful held-IsSeparate [] the_request
      the_answer
unfolding handle_check new_handler authorize_pat run begin look join_texts texts_of token_or_empty
    of_texts split_texts authz_domain_service get_user_info with_auth_token decode_user_info
    exchange_with_actor with_content_type with_body with_basic_auth decode_token_response
    parse_id_token_claims build_decision_from_claims token_claims cached_token hash_pat
    decode_cached_token encode_cached_token decide_cached build_decision
handle_check_ok_example =
    handle_check_ok platform config store_redis held held-IsLawful held-IsSeparate [] the_request
      the_answer (λ h. refl) once-reached refl refl
