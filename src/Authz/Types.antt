-- ===== src/Authz/Types.antt =====
-- internal/domain/authz/types.go, and the headers of a decision (`buildDecision` and
-- `buildDecisionFromClaims` of service.go).
pub mod Headers
use oauth2_token_exchange.Common.{String, Bool, true, false, List, [], ◌∷◌, ◌==◌, if◌then◌else◌}
use oauth2_token_exchange.Go.Strings.{join}
use oauth2_token_exchange.Go.Map.{StringMap, get, insert}
use oauth2_token_exchange.Cache.{CachedToken}

pub record TokenClaims : Type 0 where
  pub user_id : String
  pub email : String
  pub groups : List String
  pub preferred_username : String
  pub jwt : String

pub record AuthzDecision : Type 0 where
  pub allow : Bool
  pub headers : StringMap
  pub reason : String

unfoldable pub deny : String → AuthzDecision
deny reason = record { allow = false; headers = []; reason = reason }

abbrev pub put_text : String → String → StringMap → StringMap
put_text key value headers = if value == "" then headers else insert key value headers

abbrev pub put_groups : String → List String → StringMap → StringMap
put_groups key [] headers = headers
put_groups key (g ∷ gs) headers = insert key (join (g ∷ gs) ",") headers

-- `buildDecision`
unfoldable pub build_decision : CachedToken → StringMap → AuthzDecision
unfolding get insert join
build_decision cached keys = record {
  allow = true;
  headers = put_text (get keys "user_jwt") cached.access_token (
      put_text (get keys "user_preferred_username") cached.preferred_username (
        put_groups (get keys "user_groups") cached.groups (
          put_text (get keys "user_email") cached.email
            (put_text (get keys "user_id") cached.user_id []))));
  reason = "";
}

-- `buildDecisionFromClaims`
unfoldable pub build_decision_from_claims : TokenClaims → StringMap → AuthzDecision
unfolding get insert join
build_decision_from_claims claims keys = record {
  allow = true;
  headers = put_text (get keys "user_jwt") claims.jwt (
      put_text (get keys "user_preferred_username") claims.preferred_username (
        put_groups (get keys "user_groups") claims.groups (
          put_text (get keys "user_email") claims.email
            (put_text (get keys "user_id") claims.user_id []))));
  reason = "";
}
