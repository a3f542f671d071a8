-- ===== src/Authz/Service/Steps/Run.antt =====
-- A request that runs alone does what `authorize_pat` says, in at most four calls.
use oauth2_token_exchange.Common.{
  ℕ, zero, suc, String, ◌==◌, if◌then◌else◌, ◌≡◌, refl, ap, ◌∙◌, Option, none, some, inl, inr,
  Bool-cases, true, false, Bool, eq_iff, sym, subst,
}
use oauth2_token_exchange.Go.Errors.{Result, ok, err}
use oauth2_token_exchange.Go.Act.{
  Reply, returned, failed, panicked, attempt, attempt_reply, continue, ◌>>=◌, ◌>>◌, pure,
}
use oauth2_token_exchange.Go.Map.{StringMap}
use oauth2_token_exchange.Zitadel.Types.{UserInfo, TokenResponse}
use oauth2_token_exchange.Zitadel.Api.{UserInfoGetter}
use oauth2_token_exchange.Cache.{CachedToken, Duration}
use oauth2_token_exchange.Authz.Types.{AuthzDecision, deny}
use oauth2_token_exchange.Authz.Claims.{IdTokenClaims, hash_pat}
use oauth2_token_exchange.Authz.Service.{
  Service, bare_token, subject_token_type, authorize_pat, hit, user_info_of, finish, with_response,
  with_user_info, on_miss, with_cached,
}
use oauth2_token_exchange.Authz.Service.Steps.{
  Pc, denied, looking, exchanging, storing, answered, begin, after_get, after_user_info,
  after_parse, after_exchange, after_set, ask, run,
}

module _ {S : Type 0} (s : Service S) (ttl : Duration) (keys : StringMap) where
  -- The request has ended with a reply in a state of the world.
  abbrev ended : String → Reply AuthzDecision × S → Pc × S
  ended pat (reply, st) = (answered pat reply, st)

  run-answered :
      (n : ℕ) (pat : String) (out : Reply AuthzDecision × S)
      → run s ttl keys n (ended pat out) ≡ ended pat out
  unfolding run
  run-answered zero pat out = refl
  run-answered (suc n) pat out = run-answered n pat out

  module _ (pat : String) where
    abbrev hash : String
    hash = hash_pat s.sha256 pat

    run-after_set :
        (d : AuthzDecision) (r : Reply (Unit {0})) (st : S)
        → (after_set s ttl keys pat d r, st)
          ≡ ended pat (continue (attempt_reply r) (λ _. pure d) st)
    run-after_set d (returned a) st = refl
    run-after_set d (failed e) st = refl
    run-after_set d (panicked text) st = refl

    run-storing :
        (n : ℕ) (t : CachedToken) (d : AuthzDecision) (st : S)
        → run s ttl keys (suc n) (storing pat t d, st)
          ≡ ended pat ((attempt (s.token_cache.set hash t ttl) >> pure d) st)
    unfolding run
    run-storing n t d st =
        let call = s.token_cache.set hash t ttl st in
        ap (run s ttl keys n) (run-after_set d call.0 call.1) ∙ run-answered n pat _

    run-after_parse :
        (n : ℕ) (resp : TokenResponse) (x : Result IdTokenClaims) (st : S)
        → run s ttl keys (suc n) (after_parse s ttl keys pat resp x, st)
          ≡ ended pat (finish s hash ttl keys resp x st)
    run-after_parse n resp (ok claims) st = run-storing n _ _ st
    run-after_parse n resp (err e) st = run-answered (suc n) pat _

    run-after_exchange :
        (n : ℕ) (r : Reply (Option TokenResponse)) (st : S)
        → run s ttl keys (suc n) (after_exchange s ttl keys pat r, st)
          ≡ ended pat (continue (attempt_reply r) (with_response s hash ttl keys) st)
    run-after_exchange n (returned none) st = run-answered (suc n) pat _
    run-after_exchange n (returned (some resp)) st = run-after_parse n resp _ st
    run-after_exchange n (failed e) st = run-answered (suc n) pat _
    run-after_exchange n (panicked text) st = run-answered (suc n) pat _

    run-exchanging :
        (n : ℕ) (info : UserInfo) (st : S)
        → run s ttl keys (suc (suc n)) (exchanging pat info, st)
          ≡ ended pat (
              (attempt (
                    s.token_exchanger.exchange_with_actor info.username subject_token_type
                      s.admin_pat)
                  >>= with_response s hash ttl keys)
                st)
    unfolding run
    run-exchanging n info st = run-after_exchange n _ _

    run-chosen :
        (n : ℕ) (is_client : Bool) (info : UserInfo) (st : S)
        → run s ttl keys (suc (suc n)) (
          if is_client
              then exchanging pat info
              else denied pat "token exchanger is not a zitadel client",
          st,
        )
          ≡ ended pat (
              (if is_client
                  then (attempt (
                        s.token_exchanger.exchange_with_actor info.username subject_token_type
                          s.admin_pat)
                      >>= with_response s hash ttl keys)
                  else pure (deny "token exchanger is not a zitadel client"))
                st)
    run-chosen n true info st = run-exchanging n info st
    run-chosen n false info st = run-answered (suc (suc n)) pat _

    run-after_user_info :
        (n : ℕ) (r : Reply (Option UserInfo)) (st : S)
        → run s ttl keys (suc (suc n)) (after_user_info s ttl keys pat r, st)
          ≡ ended pat (continue (attempt_reply r) (with_user_info s hash ttl keys) st)
    run-after_user_info n (returned none) st = run-answered (suc (suc n)) pat _
    run-after_user_info n (returned (some info)) st = run-chosen n s.is_client info st
    run-after_user_info n (failed e) st = run-storing (suc n) _ _ st
    run-after_user_info n (panicked text) st = run-answered (suc (suc n)) pat _

    run-ask :
        (n : ℕ) (getter : Option (UserInfoGetter S)) (st : S)
        → run s ttl keys (suc (suc n)) (ask s ttl keys getter pat st)
          ≡ ended pat ((attempt (user_info_of s getter pat) >>= with_user_info s hash ttl keys) st)
    run-ask n none st = run-answered (suc (suc n)) pat _
    run-ask n (some getter) st = run-after_user_info n _ _

    run-missed :
        (n : ℕ) (st : S)
        → run s ttl keys (suc (suc (suc n))) (after_get s ttl keys pat (returned none), st)
          ≡ ended pat (on_miss s hash ttl keys pat st)
    unfolding run
    run-missed n st = elim (Bool-cases (s.admin_pat == "")) [
      | inl unset ↦ rw unset (run-answered n pat _)
      | inr set ↦ rw set (run-ask n s.user_info_getter st)
    ]

    run-after_get :
        (n : ℕ) (r : Reply (Option CachedToken)) (st : S)
        → run s ttl keys (suc (suc (suc n))) (after_get s ttl keys pat r, st)
          ≡ ended pat (continue (attempt_reply r) (λ x. with_cached s hash ttl keys pat (hit x)) st)
    run-after_get n (returned none) st = run-missed n st
    run-after_get n (returned (some c)) st = run-answered (suc (suc (suc n))) pat _
    run-after_get n (failed e) st = run-missed n st
    run-after_get n (panicked text) st = run-answered (suc (suc (suc n))) pat _

    run-looking :
        (n : ℕ) (st : S)
        → run s ttl keys (suc (suc (suc (suc n)))) (looking pat, st)
          ≡ ended pat (
              (attempt (s.token_cache.get hash) >>= λ x. with_cached s hash ttl keys pat (hit x))
                st)
    unfolding run
    run-looking n st = run-after_get n _ _

  blank_token : (pat : String) → (pat == "") ≡ true → "" ≡ bare_token pat
  unfolding bare_token
  blank_token pat empty = subst (λ p. "" ≡ bare_token p) (sym ((eq_iff pat "").0 empty)) refl

  -- The request and the function as one function of the token that the reply is kept with.
  abbrev EndsAs : String → ℕ → S → String → Type 0
  EndsAs pat n st token =
      run s ttl keys (suc (suc (suc (suc n)))) (begin pat, st)
      ≡ (answered token (authorize_pat s pat ttl keys st).0, (authorize_pat s pat ttl keys st).1)

  begin-EndsAs :
      (pat : String) (n : ℕ) (st : S)
      → (token : String) × (token ≡ bare_token pat) × EndsAs pat n st token
  unfolding begin authorize_pat
  begin-EndsAs pat n st = elim (Bool-cases (pat == "")) [
    | inl empty ↦ ("", blank_token pat empty, rw empty (run-answered _ "" _))
    | inr given ↦ elim (Bool-cases (bare_token pat == "")) [
      | inl blank ↦
          ("", sym ((eq_iff (bare_token pat) "").0 blank), rw (given, blank) (run-answered _ "" _))
      | inr solid ↦ (bare_token pat, refl, rw (given, solid) (run-looking (bare_token pat) n st))
    ]
  ]

  -- A request that runs alone ends within four calls of the world, with its bare token and the
  -- reply of `AuthorizePAT` as one function, and in the state that it leaves.
  pub run-begin :
      (pat : String) (n : ℕ) (st : S)
      → run s ttl keys (suc (suc (suc (suc n)))) (begin pat, st) ≡ (
        answered (bare_token pat) (authorize_pat s pat ttl keys st).0,
        (authorize_pat s pat ttl keys st).1,
      )
  run-begin pat n st =
      let (token, same, ends) = begin-EndsAs pat n st in subst (EndsAs pat n st) same ends
