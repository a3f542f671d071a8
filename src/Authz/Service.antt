-- ===== src/Authz/Service.antt =====
-- internal/domain/authz/service.go: `AuthorizePAT`. Log lines are not modelled.
pub mod Branches
pub mod Grounds
pub mod History
pub mod Earned
pub mod Repeat
pub mod Steps
use oauth2_token_exchange.Common.{
  ℕ, String, ◌<>◌, Bool, true, false, Option, none, some, List, ◌==◌, if◌then◌else◌,
}
use oauth2_token_exchange.Go.Errors.{GoError, error_text, Result, ok, err}
use oauth2_token_exchange.Go.Act.{Act, pure, panic, attempt, ◌>>=◌, ◌>>◌}
use oauth2_token_exchange.Go.Strings.{trim_prefix, trim_space}
use oauth2_token_exchange.Go.Map.{StringMap}
use oauth2_token_exchange.Go.Json.{JsonText}
use oauth2_token_exchange.Zitadel.Types.{UserInfo, TokenResponse}
use oauth2_token_exchange.Zitadel.Api.{TokenExchanger, UserInfoGetter}
use oauth2_token_exchange.Zitadel.Users.{nil_dereference}
use oauth2_token_exchange.Cache.{CachedToken, no_cached_token, TokenCache, Duration}
use oauth2_token_exchange.Authz.Types.{
  TokenClaims, AuthzDecision, deny, build_decision, build_decision_from_claims,
}
use oauth2_token_exchange.Authz.Claims.{IdTokenClaims, hash_pat, parse_id_token_claims}

-- The service. `is_client` is the outcome of the type assertion on the token exchanger, and
-- `user_info_getter` is an interface value that may be nil. The digest and the JSON texts are the
-- standard library's.
pub record Service (S : Type 0) : Type 0 where
  pub token_cache : TokenCache S
  pub token_exchanger : TokenExchanger S
  pub is_client : Bool
  pub user_info_getter : Option (UserInfoGetter S)
  pub admin_pat : String
  pub sha256 : List ℕ → List ℕ
  pub json : JsonText

-- `NewService`. What follows the two arguments of the source is the type of the exchanger and the
-- standard library.
unfoldable pub new_service :
    {S : Type 0} → TokenCache S → TokenExchanger S → Bool → (List ℕ → List ℕ) → JsonText → Service S
new_service token_cache token_exchanger is_client sha256 json = record {
  token_cache = token_cache;
  token_exchanger = token_exchanger;
  is_client = is_client;
  user_info_getter = none;
  admin_pat = "";
  sha256 = sha256;
  json = json;
}

-- `NewServiceWithMachineUserSupport`
unfoldable pub new_service_with_machine_user_support :
    {S : Type 0}
    → TokenCache S
    → TokenExchanger S
    → UserInfoGetter S
    → String
    → Bool
    → (List ℕ → List ℕ)
    → JsonText
    → Service S
new_service_with_machine_user_support token_cache token_exchanger user_info_getter admin_pat
      is_client sha256 json =
    record {
      token_cache = token_cache;
      token_exchanger = token_exchanger;
      is_client = is_client;
      user_info_getter = some user_info_getter;
      admin_pat = admin_pat;
      sha256 = sha256;
      json = json;
    }

abbrev pub subject_token_type : String
subject_token_type = "urn:zitadel:params:oauth:token-type:user_id"

-- What both the transport and this service do to a header's value.
unfoldable pub bare_token : String → String
unfolding trim_prefix trim_space
bare_token s = trim_space (trim_prefix s "Bearer ")

abbrev pub invalid_token : CachedToken
invalid_token = record no_cached_token { is_invalid = true }

unfoldable pub cached_token : TokenResponse → IdTokenClaims → CachedToken
cached_token resp claims = record {
  access_token = resp.access_token;
  user_id = claims.sub;
  email = claims.email;
  groups = claims.groups;
  preferred_username = claims.preferred_username;
  is_invalid = false;
}

unfoldable pub token_claims : TokenResponse → IdTokenClaims → TokenClaims
token_claims resp claims = record {
  user_id = claims.sub;
  email = claims.email;
  groups = claims.groups;
  preferred_username = claims.preferred_username;
  jwt = resp.access_token;
}

-- A token that was read from the cache with no error.
abbrev pub hit : Result (Option CachedToken) → Option CachedToken
hit (ok found) = found
hit (err e) = none

unfoldable pub decide_cached : CachedToken → StringMap → AuthzDecision
decide_cached cached keys =
    if cached.is_invalid then deny "cached invalid token" else build_decision cached keys

module _ {S : Type 0} (s : Service S) where
  -- A call on a nil interface panics.
  abbrev pub user_info_of : Option (UserInfoGetter S) → String → Act S (Option UserInfo)
  user_info_of none pat = panic nil_dereference
  user_info_of (some getter) pat = getter.get_user_info pat

  module _ (pat_hash : String) (ttl : Duration) (keys : StringMap) where
    abbrev pub finish : TokenResponse → Result IdTokenClaims → Act S AuthzDecision
    finish resp (err e) = pure (deny ("parse id token failed: " <> error_text e))
    finish resp (ok claims) = do
      attempt (s.token_cache.set pat_hash (cached_token resp claims) ttl)
      pure (build_decision_from_claims (token_claims resp claims) keys)

    -- A nil response with a nil error panics when its id token is read.
    abbrev pub with_response : Result (Option TokenResponse) → Act S AuthzDecision
    with_response (err e) = pure (deny ("token exchange with actor failed: " <> error_text e))
    with_response (ok none) = panic nil_dereference
    with_response (ok (some resp)) = finish resp (parse_id_token_claims s.json resp.id_token)

    -- Nil user information with a nil error panics: the log line reads the text of the nil error.
    abbrev pub with_user_info : Result (Option UserInfo) → Act S AuthzDecision
    with_user_info (err e) = do
      attempt (s.token_cache.set pat_hash invalid_token ttl)
      pure (deny (error_text e))
    with_user_info (ok none) = panic nil_dereference
    with_user_info (ok (some info)) =
        if s.is_client
        then (do
          resp ←
              attempt
                (s.token_exchanger.exchange_with_actor info.username subject_token_type s.admin_pat)
          with_response resp)
        else pure (deny "token exchanger is not a zitadel client")

    abbrev pub on_miss : String → Act S AuthzDecision
    on_miss pat =
        if s.admin_pat == ""
        then pure (deny "admin PAT is not set")
        else (do info ← attempt (user_info_of s.user_info_getter pat); with_user_info info)

    abbrev pub with_cached : String → Option CachedToken → Act S AuthzDecision
    with_cached pat (some cached) = pure (decide_cached cached keys)
    with_cached pat none = on_miss pat

  -- What is decided on a bare token.
  unfoldable pub authorize_token : String → Duration → StringMap → Act S AuthzDecision
  authorize_token pat ttl keys =
      if pat == "" then pure (deny "PAT is empty after trimming") else (do
        cached ← attempt (s.token_cache.get (hash_pat s.sha256 pat))
        with_cached (hash_pat s.sha256 pat) ttl keys pat (hit cached))

  -- `AuthorizePAT`
  unfoldable pub authorize_pat : String → Duration → StringMap → Act S AuthzDecision
  unfolding bare_token authorize_token
  authorize_pat pat ttl keys =
      if pat == "" then pure (deny "PAT is empty") else authorize_token (bare_token pat) ttl keys
