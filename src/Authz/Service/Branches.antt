-- ===== src/Authz/Service/Branches.antt =====
-- `AuthorizePAT` branch by branch: what it calls and what it answers.
use oauth2_token_exchange.Common.{
  String, ◌<>◌, true, false, ◌≡◌, ◌≢◌, ◌∙◌, Option, none, some, ◌==◌, eq_iff, arith,
}
use oauth2_token_exchange.Go.Errors.{GoError, error_text, ok}
use oauth2_token_exchange.Go.Act.{Reply, returned, failed, panicked, attempt, ◌>>=◌}
use oauth2_token_exchange.Go.Map.{StringMap}
use oauth2_token_exchange.Zitadel.Types.{UserInfo, TokenResponse}
use oauth2_token_exchange.Zitadel.Api.{UserInfoGetter}
use oauth2_token_exchange.Cache.{CachedToken, Duration}
use oauth2_token_exchange.Authz.Types.{deny, build_decision_from_claims}
use oauth2_token_exchange.Authz.Claims.{IdTokenClaims, hash_pat, parse_id_token_claims}
use oauth2_token_exchange.Authz.Service.{
  Service, decide_cached, authorize_token, authorize_pat, invalid_token, cached_token, token_claims,
  subject_token_type, on_miss, with_user_info, with_response,
}

-- A reply of the cache that makes the service ask ZITADEL: no token, or an error.
abbrev pub IsMiss : Reply (Option CachedToken) → Type 0
IsMiss (returned none) = Unit
IsMiss (failed e) = Unit
IsMiss _ = ⊥

-- A reply that is no panic: the write was made, or its error was logged.
abbrev pub IsDone : Reply (Unit {0}) → Type 0
IsDone (panicked text) = ⊥
IsDone _ = Unit

not_empty : (pat : String) → pat ≢ "" → (pat == "") ≡ false
not_empty pat h = ground (arith, eq_iff pat "")

module _ {S : Type 0} (s : Service S) (ttl : Duration) (keys : StringMap) where
  -- The service never answers with an error: every failure is a decision or a panic.
  pub authorize_pat-ne-failed :
      (pat : String) (st : S) (e : GoError) → (authorize_pat s pat ttl keys st).0 ≢ failed e
  unfolding authorize_pat authorize_token
  authorize_pat-ne-failed pat st e = ground arith

  module _ (pat : String) (st : S) (solid : pat ≢ "") where
    -- For a token that is not empty, a hit in the cache decides alone: the one call is the
    -- cache's.
    pub authorize_token_hit :
        (c : CachedToken) (st' : S)
        → s.token_cache.get (hash_pat s.sha256 pat) st ≡ (returned (some c), st')
        → authorize_token s pat ttl keys st ≡ (returned (decide_cached c keys), st')
    unfolding authorize_token
    authorize_token_hit c st' h = rw (not_empty pat solid, h)

    module _ (found : Reply (Option CachedToken)) (st1 : S)
        (got : s.token_cache.get (hash_pat s.sha256 pat) st ≡ (found, st1))
        (missed : IsMiss found) where
      authorize_token_miss :
          authorize_token s pat ttl keys st ≡ on_miss s (hash_pat s.sha256 pat) ttl keys pat st1
      unfolding authorize_token
      authorize_token_miss = rw (not_empty pat solid, got) (ground arith)

      -- With no admin token, a token that is not empty and not in the cache is denied, and
      -- ZITADEL is not called.
      pub authorize_token_no_admin :
          s.admin_pat ≡ ""
          → authorize_token s pat ttl keys st ≡ (returned (deny "admin PAT is not set"), st1)
      authorize_token_no_admin unset =
          authorize_token_miss ∙ ground (arith, eq_iff s.admin_pat "", unset)

      module _ (getter : UserInfoGetter S) (admin : s.admin_pat ≢ "")
          (wired : s.user_info_getter ≡ some getter) where
        asks_user_info :
            on_miss s (hash_pat s.sha256 pat) ttl keys pat st1
            ≡ (attempt (getter.get_user_info pat)
                  >>= with_user_info s (hash_pat s.sha256 pat) ttl keys)
                st1
        asks_user_info = rw (not_empty s.admin_pat admin, wired)

        -- A token that is not empty and not in the cache, and that ZITADEL does not accept, is
        -- denied with ZITADEL's error, and an invalid token is written to the cache under its
        -- hash. An admin token and a getter of user information are set, and the write does not
        -- panic.
        pub authorize_token_refused :
            (e : GoError) (st2 st3 : S) (written : Reply (Unit {0}))
            → getter.get_user_info pat st1 ≡ (failed e, st2)
            → s.token_cache.set (hash_pat s.sha256 pat) invalid_token ttl st2 ≡ (written, st3)
            → IsDone written
            → authorize_token s pat ttl keys st ≡ (returned (deny (error_text e)), st3)
        authorize_token_refused e st2 st3 written asked wrote done =
            authorize_token_miss ∙ asks_user_info ∙ rw (asked, wrote) (ground arith)

        module _ (info : UserInfo) (st2 : S)
            (asked : getter.get_user_info pat st1 ≡ (returned (some info), st2))
            (client : s.is_client ≡ true) where
          exchanges :
              on_miss s (hash_pat s.sha256 pat) ttl keys pat st1
              ≡ (attempt (
                      s.token_exchanger.exchange_with_actor info.username subject_token_type
                        s.admin_pat)
                    >>= with_response s (hash_pat s.sha256 pat) ttl keys)
                  st2
          exchanges = asks_user_info ∙ rw (asked, client)

          -- A token that is not empty and not in the cache, and that ZITADEL accepts but fails to
          -- exchange, is denied, and nothing is written to the cache. An admin token, a getter of
          -- user information and the client of ZITADEL are set.
          pub authorize_token_exchange_failed :
              (e : GoError) (st3 : S)
              → s.token_exchanger.exchange_with_actor info.username subject_token_type s.admin_pat
                  st2
                ≡ (failed e, st3)
              → authorize_token s pat ttl keys st
                ≡ (returned (deny ("token exchange with actor failed: " <> error_text e)), st3)
          authorize_token_exchange_failed e st3 exchanged =
              authorize_token_miss ∙ exchanges ∙ rw exchanged

          -- A token that is not empty and not in the cache, and that ZITADEL accepts and
          -- exchanges, is allowed with the claims of its id token, which are written to the cache
          -- under its hash. An admin token, a getter of user information and the client of
          -- ZITADEL are set, the id token is read, and the write does not panic.
          pub authorize_token_exchanged :
              (resp : TokenResponse) (claims : IdTokenClaims) (st3 st4 : S)
              (written : Reply (Unit {0}))
              → s.token_exchanger.exchange_with_actor info.username subject_token_type s.admin_pat
                  st2
                ≡ (returned (some resp), st3)
              → parse_id_token_claims s.json resp.id_token ≡ ok claims
              → s.token_cache.set (hash_pat s.sha256 pat) (cached_token resp claims) ttl st3
                ≡ (written, st4)
              → IsDone written
              → authorize_token s pat ttl keys st
                ≡ (returned (build_decision_from_claims (token_claims resp claims) keys), st4)
          authorize_token_exchanged resp claims st3 st4 written exchanged parsed wrote done =
              authorize_token_miss ∙ exchanges ∙ rw (exchanged, parsed, wrote) (ground arith)
