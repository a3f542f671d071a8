-- ===== src/Authz/Service/History.antt =====
-- What the cache holds after any history of requests.
use oauth2_token_exchange.Common.{
  String, true, ◌≡◌, ◌≢◌, ◌⊎◌, inl, inr, refl, ap, ◌∙◌, Option, none, some, ◌==◌, eq_iff, arith,
}
use oauth2_token_exchange.Go.Errors.{Result, ok, err}
use oauth2_token_exchange.Go.Act.{returned, attempt, attempt_reply, ◌>>=◌, pure}
use oauth2_token_exchange.Go.Act.Laws.{attempt_reply-eq-ok, state-continue, state-if}
use oauth2_token_exchange.Go.Map.{StringMap}
use oauth2_token_exchange.Zitadel.Types.{UserInfo, TokenResponse}
use oauth2_token_exchange.Zitadel.Api.{UserInfoGetter}
use oauth2_token_exchange.Cache.{CachedToken, Duration}
use oauth2_token_exchange.Cache.Laws.{IsLawful}
use oauth2_token_exchange.Cache.Held.{set-AllHeld}
use oauth2_token_exchange.Authz.Types.{AuthzDecision}
use oauth2_token_exchange.Authz.Claims.{IdTokenClaims, hash_pat, parse_id_token_claims}
use oauth2_token_exchange.Authz.Service.{
  Service, bare_token, authorize_token, authorize_pat, invalid_token, cached_token,
  subject_token_type, with_cached, user_info_of, on_miss, with_user_info, with_response, finish,
  hit,
}
use oauth2_token_exchange.Authz.Service.Grounds.{Issued}

module _ {S : Type 0} (s : Service S) (held : S → String → Option CachedToken) where
  -- The calls of ZITADEL bring nothing into the cache.
  pub record IsSeparate : Type 0 where
    pub held-user_info :
        (getter : UserInfoGetter S)
        → s.user_info_getter ≡ some getter
        → (pat h : String) (st : S) (t : CachedToken)
        → held (getter.get_user_info pat st).1 h ≡ some t
        → held st h ≡ some t
    pub held-exchange :
        (subject type actor h : String) (st : S) (t : CachedToken)
        → held (s.token_exchanger.exchange_with_actor subject type actor st).1 h ≡ some t
        → held st h ≡ some t

  -- A token marked invalid, or one made of an exchange for a token with this hash.
  abbrev pub IsGenuine : String → CachedToken → Type 0
  IsGenuine h t =
      (t.is_invalid ≡ true)
      ⊎ ((pat : String) × (resp : TokenResponse) × (claims : IdTokenClaims) × (hash_pat s.sha256 pat
            ≡ h)
          × Issued s pat resp claims
          × (t ≡ cached_token resp claims))

  -- All that the cache holds is genuine.
  pub record IsSound (st : S) : Type 0 where
    pub genuine : (h : String) (t : CachedToken) → held st h ≡ some t → IsGenuine h t

  module _ (lawful : IsLawful s.token_cache held) (separate : IsSeparate) where
    get-IsSound : (h : String) (st : S) → IsSound st → IsSound (s.token_cache.get h st).1
    get-IsSound h st sound = record {
      genuine = λ k t e. sound.genuine k t (lawful.held-get h k st t e);
    }

    set-IsSound :
        (h : String) (t : CachedToken) (ttl : Duration) (st : S)
        → IsGenuine h t
        → IsSound st
        → IsSound (s.token_cache.set h t ttl st).1
    set-IsSound h t ttl st genuine sound = record {
      genuine = set-AllHeld s.token_cache held lawful IsGenuine h t ttl st genuine sound.genuine;
    }

    -- A write whose outcome only decides what is logged.
    attempt_set-IsSound :
        (h : String) (t : CachedToken) (ttl : Duration) (d : AuthzDecision) (st : S)
        → IsGenuine h t
        → IsSound st
        → IsSound ((attempt (s.token_cache.set h t ttl) >>= λ _. pure d) st).1
    attempt_set-IsSound h t ttl d st genuine sound =
        let after = set-IsSound h t ttl st genuine sound in
        state-continue IsSound (attempt_reply (s.token_cache.set h t ttl st).0) (λ _. pure d) _
          after (λ _ _. after)

    module _ (ttl : Duration) (keys : StringMap) (pat : String) where
      finish-IsSound :
          (resp : TokenResponse) (x : Result IdTokenClaims) (st : S)
          → ((claims : IdTokenClaims) → x ≡ ok claims → Issued s pat resp claims)
          → IsSound st
          → IsSound (finish s (hash_pat s.sha256 pat) ttl keys resp x st).1
      finish-IsSound resp (err e) st issued sound = sound
      finish-IsSound resp (ok claims) st issued sound =
          attempt_set-IsSound (hash_pat s.sha256 pat) (cached_token resp claims) ttl _ st
            (inr (pat, resp, claims, refl, issued claims refl, refl)) sound

      with_response-IsSound :
          (x : Result (Option TokenResponse)) (st : S)
          → ((resp : TokenResponse) (claims : IdTokenClaims)
              → x ≡ ok (some resp)
              → parse_id_token_claims s.json resp.id_token ≡ ok claims
              → Issued s pat resp claims)
          → IsSound st
          → IsSound (with_response s (hash_pat s.sha256 pat) ttl keys x st).1
      with_response-IsSound (err e) st issued sound = sound
      with_response-IsSound (ok none) st issued sound = sound
      with_response-IsSound (ok (some resp)) st issued sound =
          finish-IsSound resp (parse_id_token_claims s.json resp.id_token) st
            (λ claims parsed. issued resp claims refl parsed) sound

      exchange-IsSound :
          (getter : UserInfoGetter S)
          → s.user_info_getter ≡ some getter
          → s.admin_pat ≢ ""
          → (info : UserInfo) (st : S) → (getter.get_user_info pat st).0 ≡ returned (some info)
          → IsSound (getter.get_user_info pat st).1
          → IsSound
              ((attempt (
                    s.token_exchanger.exchange_with_actor info.username subject_token_type
                      s.admin_pat)
                  >>= with_response s (hash_pat s.sha256 pat) ttl keys)
                (getter.get_user_info pat st).1).1
      exchange-IsSound getter wired admin info st asked sound =
          let st2 = (getter.get_user_info pat st).1 in
          let call =
            s.token_exchanger.exchange_with_actor info.username subject_token_type s.admin_pat in
          let after : IsSound (call st2).1 = record {
            genuine = λ h t e.
                sound.genuine h t (separate.held-exchange info.username _ s.admin_pat h st2 t e);
          } in
          state-continue IsSound (attempt_reply (call st2).0) _ _ after (λ x gave.
            with_response-IsSound x _
              (λ resp claims same parsed. record {
                getter = getter;
                wired = wired;
                admin = admin;
                before = st;
                info = info;
                asked = asked;
                exchanged = attempt_reply-eq-ok _ (gave ∙ ap returned same);
                parsed = parsed;
              })
              after)

      with_user_info-IsSound :
          (getter : UserInfoGetter S)
          → s.user_info_getter ≡ some getter
          → s.admin_pat ≢ ""
          → (x : Result (Option UserInfo)) (st : S)
          → attempt_reply (getter.get_user_info pat st).0 ≡ returned x
          → IsSound (getter.get_user_info pat st).1
          → IsSound
              (with_user_info s
                (hash_pat s.sha256 pat)
                ttl
                keys
                x
                (getter.get_user_info pat st).1).1
      with_user_info-IsSound getter wired admin (err e) st got sound =
          attempt_set-IsSound (hash_pat s.sha256 pat) invalid_token ttl _ _ (inl refl) sound
      with_user_info-IsSound getter wired admin (ok none) st got sound = sound
      with_user_info-IsSound getter wired admin (ok (some info)) st got sound =
          state-if IsSound s.is_client _ _ (getter.get_user_info pat st).1
            (λ client.
              exchange-IsSound getter wired admin info st (attempt_reply-eq-ok _ got) sound)
            (λ other. sound)

      user_info-IsSound :
          (getter : Option (UserInfoGetter S))
          → s.user_info_getter ≡ getter
          → s.admin_pat ≢ ""
          → (st : S) → IsSound st
          → IsSound
              ((attempt (user_info_of s getter pat)
                  >>= with_user_info s (hash_pat s.sha256 pat) ttl keys)
                st).1
      user_info-IsSound none wired admin st sound = sound
      user_info-IsSound (some getter) wired admin st sound =
          let after : IsSound (getter.get_user_info pat st).1 = record {
            genuine =
                λ h t e. sound.genuine h t (separate.held-user_info getter wired pat h st t e);
          } in
          state-continue IsSound (attempt_reply (getter.get_user_info pat st).0) _ _ after
            (λ x got. with_user_info-IsSound getter wired admin x st got after)

      on_miss-IsSound :
          (st : S) → IsSound st → IsSound (on_miss s (hash_pat s.sha256 pat) ttl keys pat st).1
      on_miss-IsSound st sound =
          state-if IsSound (s.admin_pat == "") _ _ st (λ unset. sound)
            (λ set.
              user_info-IsSound s.user_info_getter refl (ground (arith, eq_iff s.admin_pat "")) st
                sound)

      with_cached-IsSound :
          (x : Option CachedToken) (st : S)
          → IsSound st
          → IsSound (with_cached s (hash_pat s.sha256 pat) ttl keys pat x st).1
      with_cached-IsSound none st sound = on_miss-IsSound st sound
      with_cached-IsSound (some c) st sound = sound

      authorize_token-IsSound :
          (st : S) → IsSound st → IsSound (authorize_token s pat ttl keys st).1
      unfolding authorize_token
      authorize_token-IsSound st sound =
          let after = get-IsSound (hash_pat s.sha256 pat) st sound in
          state-if IsSound (pat == "") _ _ st (λ empty. sound)
            (λ solid.
              state-continue IsSound
                (attempt_reply (s.token_cache.get (hash_pat s.sha256 pat) st).0) _ _ after
                (λ x got. with_cached-IsSound (hit x) _ after))

    module _ (ttl : Duration) (keys : StringMap) where
      -- No request brings a token into the cache that is neither marked invalid nor made of an
      -- exchange for a token with its hash, if the cache is lawful and the calls of ZITADEL bring
      -- nothing into it.
      pub authorize_pat-IsSound :
          (pat : String) (st : S) → IsSound st → IsSound (authorize_pat s pat ttl keys st).1
      unfolding authorize_pat
      authorize_pat-IsSound pat st sound =
          state-if IsSound (pat == "") _ _ st (λ empty. sound)
            (λ given. authorize_token-IsSound ttl keys (bare_token pat) st sound)
