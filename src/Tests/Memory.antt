-- ===== src/Tests/Memory.antt =====
-- Stand-ins: a cache in memory, and services of ZITADEL that know one token.
use mathlib.Core.Option.{some-injective}
use oauth2_token_exchange.Common.{
  String, true, Option, none, some, List, [], ◌∷◌, ◌==◌, eq_iff, arith, ◌≡◌, ap, sym, subst, ◌∙◌,
  if◌then◌else◌,
}
use oauth2_token_exchange.Go.Errors.{message, sentinel, cache_miss, ok}
use oauth2_token_exchange.Go.Act.{Reply, returned, failed}
use oauth2_token_exchange.Go.Map.{StringMap}
use oauth2_token_exchange.Go.Json.{JsonText, object, member, end, text}
use oauth2_token_exchange.Zitadel.Types.{UserInfo, TokenResponse, no_token_response}
use oauth2_token_exchange.Zitadel.Api.{TokenExchanger, UserInfoGetter}
use oauth2_token_exchange.Cache.{CachedToken, TokenCache}
use oauth2_token_exchange.Cache.Laws.{IsLawful}
use oauth2_token_exchange.Authz.Claims.{IdTokenClaims}
use oauth2_token_exchange.Authz.Service.{Service}
use oauth2_token_exchange.Authz.Service.History.{IsSeparate}

abbrev pub Memory : Type 0
Memory = List (String × CachedToken)

unfoldable pub find : Memory → String → Option CachedToken
find [] h = none
find ((k, t) ∷ m) h = if k == h then some t else find m h

abbrev found : Option CachedToken → Reply (Option CachedToken)
found none = failed (sentinel cache_miss)
found (some t) = returned (some t)

abbrev pub memory_cache : TokenCache Memory
memory_cache = record {
  get = λ h m. (found (find m h), m);
  set = λ h t ttl m. (returned tt, (h, t) ∷ m);
}

pub memory_cache-IsLawful : IsLawful memory_cache find
unfolding find
memory_cache-IsLawful = record {
  get_sound = λ k s t h. ground arith;
  held-get = λ k j s u h. h;
  held-set = λ k t u ttl s w h. ground (arith, eq_iff k k);
  held-set_any = λ k t u ttl s h. ground (arith, eq_iff k k);
  held-set_ne = λ k j t u ttl s differ h. ground (arith, eq_iff k j);
}

abbrev pub the_user : UserInfo
the_user = record { sub = "1"; username = "ada"; email = "ada@example.org"; name = "Ada" }

-- The second part of the id token is `{}`.
abbrev pub the_response : TokenResponse
the_response = record no_token_response { access_token = "jwt"; id_token = "h.e30.s" }

abbrev pub the_claims : IdTokenClaims
the_claims = record { sub = "1"; email = "ada@example.org"; groups = []; preferred_username = "" }

abbrev pub exchanger : TokenExchanger Memory
exchanger = record {
  exchange = λ pat m. (failed (message "not supported"), m);
  exchange_with_actor = λ subject type actor m. (returned (some the_response), m);
}

-- It knows the token `secret`.
abbrev pub getter : UserInfoGetter Memory
getter = record {
  get_user_info = λ pat m.
      if pat == "secret" then (returned (some the_user), m) else (failed (message "denied"), m);
}

-- A reader that finds the same claims in every text.
abbrev pub json : JsonText
json = record {
  print = λ v. [];
  parse =
      λ bytes. ok (object (member "sub" (text "1") (member "email" (text "ada@example.org") end)));
}

abbrev pub the_service : Service Memory
the_service = record {
  token_cache = memory_cache;
  token_exchanger = exchanger;
  is_client = true;
  user_info_getter = some getter;
  admin_pat = "admin";
  sha256 = λ bytes. bytes;
  json = json;
}

abbrev pub keys : StringMap
keys = ("user_id", "X-User") ∷ ("user_email", "X-Email") ∷ ("user_jwt", "X-Jwt") ∷ []

getter_state : (pat : String) (m : Memory) → (getter.get_user_info pat m).1 ≡ m
getter_state pat m = ground arith

pub the_service-IsSeparate : IsSeparate the_service find
the_service-IsSeparate = record {
  held-user_info = λ g wired pat h st t e.
      ap (λ m. find m h) (sym (getter_state pat st))
      ∙ subst (λ (x : UserInfoGetter Memory). find (x.get_user_info pat st).1 h ≡ some t)
          (sym (some-injective _ _ wired)) e;
  held-exchange = λ subject type actor h st t e. e;
}
