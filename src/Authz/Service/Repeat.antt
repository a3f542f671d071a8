-- ===== src/Authz/Service/Repeat.antt =====
-- A request that is repeated: the cache answers as ZITADEL did.
use oauth2_token_exchange.Authz.Service.Grounds.{decide_cached-cached_token}
use mathlib.Core.Option.{some-injective}
use oauth2_token_exchange.Common.{
  String, true, ◌≡◌, ◌≢◌, sym, ap, ◌∙◌, Option, none, some, ◌==◌, arith,
}
use oauth2_token_exchange.Go.Errors.{GoError, Result, ok, err}
use oauth2_token_exchange.Go.Act.{
  Act, Reply, returned, failed, panicked, attempt, attempt_reply, ◌>>=◌,
}
use oauth2_token_exchange.Go.Act.Laws.{attempt_reply-eq-ok, post-continue, post-if}
use oauth2_token_exchange.Go.Map.{StringMap}
use oauth2_token_exchange.Zitadel.Types.{UserInfo, TokenResponse}
use oauth2_token_exchange.Cache.{CachedToken, Duration}
use oauth2_token_exchange.Cache.Laws.{IsLawful}
use oauth2_token_exchange.Authz.Types.{AuthzDecision, deny, build_decision_from_claims}
use oauth2_token_exchange.Authz.Claims.{IdTokenClaims, hash_pat}
use oauth2_token_exchange.Authz.Service.{
  Service, decide_cached, authorize_token, invalid_token, cached_token, token_claims,
  subject_token_type, with_cached, user_info_of, on_miss, with_user_info, with_response, finish,
  hit,
}
use oauth2_token_exchange.Authz.Service.Branches.{authorize_token_hit}

module _ {S : Type 0} (s : Service S) (held : S → String → Option CachedToken)
    (lawful : IsLawful s.token_cache held)
    (writable : (h : String) (t : CachedToken) (ttl : Duration) (st : S)
      → (s.token_cache.set h t ttl st).0 ≡ returned tt)
    (ttl : Duration) (keys : StringMap) (pat : String) where
  -- If the reply allows, then whatever the cache holds under the token's hash decides the same.
  abbrev Agrees : Reply AuthzDecision → S → Type 0
  Agrees r st =
      (d : AuthzDecision)
      → r ≡ returned d
      → d.allow ≡ true
      → (c : CachedToken) → held st (hash_pat s.sha256 pat) ≡ some c
      → decide_cached c keys ≡ d

  failed-Agrees : (e : GoError) (st : S) → Agrees (failed e) st
  failed-Agrees e st d h = cc

  panicked-Agrees : (t : String) (st : S) → Agrees (panicked t) st
  panicked-Agrees t st d h = cc

  denied-Agrees : (reason : String) (st : S) → Agrees (returned (deny reason)) st
  unfolding deny
  denied-Agrees reason st d h allowed = absurd (ground arith)

  written-Agrees :
      (resp : TokenResponse) (claims : IdTokenClaims) (st : S)
      → Agrees
          (returned (build_decision_from_claims (token_claims resp claims) keys))
          (s.token_cache.set (hash_pat s.sha256 pat) (cached_token resp claims) ttl st).1
  written-Agrees resp claims st d h allowed c e =
      let written = writable (hash_pat s.sha256 pat) (cached_token resp claims) ttl st in
      ap (λ t. decide_cached t keys)
        (lawful.held-set (hash_pat s.sha256 pat) (cached_token resp claims) c ttl st written e)
      ∙ decide_cached-cached_token resp claims keys
      ∙ cc

  finish-Agrees :
      (resp : TokenResponse) (x : Result IdTokenClaims) (st : S)
      → let out = finish s (hash_pat s.sha256 pat) ttl keys resp x st in Agrees out.0 out.1
  finish-Agrees resp (err e) st = denied-Agrees _ st
  finish-Agrees resp (ok claims) st =
      let call = s.token_cache.set (hash_pat s.sha256 pat) (cached_token resp claims) ttl in
      post-continue Agrees (attempt_reply (call st).0) _ (call st).1 (λ e. failed-Agrees e _)
        (λ t. panicked-Agrees t _) (λ _ _. written-Agrees resp claims st)

  with_response-Agrees :
      (x : Result (Option TokenResponse)) (st : S)
      → let out = with_response s (hash_pat s.sha256 pat) ttl keys x st in Agrees out.0 out.1
  with_response-Agrees (err e) st = denied-Agrees _ st
  with_response-Agrees (ok none) st = panicked-Agrees _ st
  with_response-Agrees (ok (some resp)) st = finish-Agrees resp _ st

  -- A block that begins with a call agrees if its rest does.
  block-Agrees :
      {A : Type 0} (m : Act S A) (f : Result A → Act S AuthzDecision) (st : S)
      → ((x : Result A) → Agrees (f x (m st).1).0 (f x (m st).1).1)
      → let out = (attempt m >>= f) st in Agrees out.0 out.1
  block-Agrees m f st h =
      post-continue Agrees (attempt_reply (m st).0) f (m st).1 (λ e. failed-Agrees e _)
        (λ t. panicked-Agrees t _) (λ x _. h x)

  with_user_info-Agrees :
      (x : Result (Option UserInfo)) (st : S)
      → let out = with_user_info s (hash_pat s.sha256 pat) ttl keys x st in Agrees out.0 out.1
  with_user_info-Agrees (err e) st =
      block-Agrees (s.token_cache.set (hash_pat s.sha256 pat) invalid_token ttl) _ st
        (λ _. denied-Agrees _ _)
  with_user_info-Agrees (ok none) st = panicked-Agrees _ st
  with_user_info-Agrees (ok (some info)) st =
      post-if Agrees s.is_client _ _ st
        (λ client.
          block-Agrees
            (s.token_exchanger.exchange_with_actor info.username subject_token_type s.admin_pat) _
            st (λ x. with_response-Agrees x _))
        (λ other. denied-Agrees _ st)

  on_miss-Agrees :
      (st : S) → let out = on_miss s (hash_pat s.sha256 pat) ttl keys pat st in Agrees out.0 out.1
  on_miss-Agrees st =
      post-if Agrees (s.admin_pat == "") _ _ st (λ unset. denied-Agrees _ st)
        (λ set.
          block-Agrees (user_info_of s s.user_info_getter pat) _ st
            (λ x. with_user_info-Agrees x _))

  -- The token that the cache gave is the one that it still holds.
  hit-Agrees :
      (c : CachedToken) (st : S)
      → attempt_reply (s.token_cache.get (hash_pat s.sha256 pat) st).0 ≡ returned (ok (some c))
      → Agrees (returned (decide_cached c keys)) (s.token_cache.get (hash_pat s.sha256 pat) st).1
  hit-Agrees c st got d h allowed c' e =
      let here = lawful.get_sound (hash_pat s.sha256 pat) st c (attempt_reply-eq-ok _ got) in
      let there = lawful.held-get (hash_pat s.sha256 pat) _ st c' e in
      ap (λ t. decide_cached t keys) (some-injective c' c (sym there ∙ here)) ∙ cc

  with_cached-Agrees :
      (x : Result (Option CachedToken)) (st : S)
      → attempt_reply (s.token_cache.get (hash_pat s.sha256 pat) st).0 ≡ returned x
      → let st1 = (s.token_cache.get (hash_pat s.sha256 pat) st).1 in
        let out = with_cached s (hash_pat s.sha256 pat) ttl keys pat (hit x) st1 in
        Agrees out.0 out.1
  with_cached-Agrees (err e) st got = on_miss-Agrees _
  with_cached-Agrees (ok none) st got = on_miss-Agrees _
  with_cached-Agrees (ok (some c)) st got = hit-Agrees c st got

  authorize_token-Agrees :
      (st : S) → let out = authorize_token s pat ttl keys st in Agrees out.0 out.1
  unfolding authorize_token
  authorize_token-Agrees st =
      post-if Agrees (pat == "") _ _ st (λ empty. denied-Agrees _ st)
        (λ solid.
          post-continue Agrees (attempt_reply (s.token_cache.get (hash_pat s.sha256 pat) st).0) _ _
            (λ e. failed-Agrees e _) (λ t. panicked-Agrees t _)
            (λ x got. with_cached-Agrees x st got))

  -- When a bare token that is not empty has been allowed and the cache then gives a token for it,
  -- the same request is answered with the same decision, and the cache's is the only call. It
  -- holds if the cache is lawful, and its writes have no error.
  pub authorize_token_again :
      (st st2 : S) (d : AuthzDecision) (c : CachedToken)
      → pat ≢ ""
      → (authorize_token s pat ttl keys st).0 ≡ returned d
      → d.allow ≡ true
      → s.token_cache.get (hash_pat s.sha256 pat) (authorize_token s pat ttl keys st).1
        ≡ (returned (some c), st2)
      → authorize_token s pat ttl keys (authorize_token s pat ttl keys st).1 ≡ (returned d, st2)
  authorize_token_again st st2 d c solid h allowed got =
      let st1 = (authorize_token s pat ttl keys st).1 in
      let held_now =
        lawful.get_sound _ st1 c (ap (λ (p : Reply (Option CachedToken) × S). p.0) got) in
      authorize_token_hit s ttl keys pat st1 solid c st2 got
      ∙ ap (λ e. (returned e, st2)) (authorize_token-Agrees st d h allowed c held_now)
