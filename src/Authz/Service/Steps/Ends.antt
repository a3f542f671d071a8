-- ===== src/Authz/Service/Steps/Ends.antt =====
-- A request ends, whatever the others do to the world between its calls.
use oauth2_token_exchange.Common.{
  ℕ, ◌-◌, ◌≤◌, String, Bool, true, false, Option, none, some, List, [], ◌∷◌, ◌≡◌, refl, arith,
  length, if◌then◌else◌,
}
use oauth2_token_exchange.Go.Errors.{Result, ok, err}
use oauth2_token_exchange.Go.Act.{Reply, returned, failed, panicked}
use oauth2_token_exchange.Go.Map.{StringMap}
use oauth2_token_exchange.Zitadel.Types.{UserInfo, TokenResponse}
use oauth2_token_exchange.Zitadel.Api.{UserInfoGetter}
use oauth2_token_exchange.Cache.{CachedToken, Duration}
use oauth2_token_exchange.Authz.Types.{AuthzDecision}
use oauth2_token_exchange.Authz.Claims.{IdTokenClaims}
use oauth2_token_exchange.Authz.Service.{Service}
use oauth2_token_exchange.Authz.Service.Steps.{
  Pc, looking, asking, exchanging, storing, answered, begin, missed, after_get, after_user_info,
  after_parse, after_exchange, after_set, ask, step,
}

-- The calls that a request may still make.
abbrev rank : Pc → ℕ
rank (looking pat) = 4
rank (asking pat) = 3
rank (exchanging pat info) = 2
rank (storing pat t d) = 1
rank (answered pat reply) = 0

rank-if : (n : ℕ) (b : Bool) (p q : Pc) → rank p ≤ n → rank q ≤ n → rank (if b then p else q) ≤ n
rank-if n true p q h k = h
rank-if n false p q h k = k

rank-begin : (pat : String) → rank (begin pat) ≤ 4
unfolding begin
rank-begin pat = ground arith

module _ {S : Type 0} (s : Service S) (ttl : Duration) (keys : StringMap) where
  module _ (pat : String) where
    rank-missed : rank (missed s ttl keys pat) ≤ 3
    rank-missed = ground arith

    rank-after_get : (r : Reply (Option CachedToken)) → rank (after_get s ttl keys pat r) ≤ 3
    rank-after_get (returned none) = rank-missed
    rank-after_get (returned (some t)) = omega arith
    rank-after_get (failed e) = rank-missed
    rank-after_get (panicked text) = omega arith

    rank-after_user_info :
        (r : Reply (Option UserInfo)) → rank (after_user_info s ttl keys pat r) ≤ 2
    rank-after_user_info (returned none) = omega arith
    rank-after_user_info (returned (some info)) = ground arith
    rank-after_user_info (failed e) = omega arith
    rank-after_user_info (panicked text) = omega arith

    rank-after_parse :
        (resp : TokenResponse) (x : Result IdTokenClaims)
        → rank (after_parse s ttl keys pat resp x) ≤ 1
    rank-after_parse resp (ok claims) = omega arith
    rank-after_parse resp (err e) = omega arith

    rank-after_exchange :
        (r : Reply (Option TokenResponse)) → rank (after_exchange s ttl keys pat r) ≤ 1
    rank-after_exchange (returned none) = omega arith
    rank-after_exchange (returned (some resp)) = rank-after_parse resp _
    rank-after_exchange (failed e) = omega arith
    rank-after_exchange (panicked text) = omega arith

    rank-after_set :
        (d : AuthzDecision) (r : Reply (Unit {0})) → rank (after_set s ttl keys pat d r) ≤ 0
    rank-after_set d (returned a) = omega arith
    rank-after_set d (failed e) = omega arith
    rank-after_set d (panicked text) = omega arith

    rank-ask :
        (getter : Option (UserInfoGetter S)) (st : S) → rank (ask s ttl keys getter pat st).0 ≤ 2
    rank-ask none st = omega arith
    rank-ask (some getter) st = rank-after_user_info _

  -- Each call brings a request nearer to its end.
  rank-step : (p : Pc) (st : S) → rank (step s ttl keys p st).0 ≤ rank p - 1
  unfolding step
  rank-step (looking pat) st = rank-after_get pat _
  rank-step (asking pat) st = rank-ask pat s.user_info_getter st
  rank-step (exchanging pat info) st = rank-after_exchange pat _
  rank-step (storing pat t d) st = rank-after_set pat d _
  rank-step (answered pat reply) st = omega arith

  -- A request makes its calls in these worlds, one in each.
  pub turns : List S → Pc → Pc
  turns [] p = p
  turns (st ∷ worlds) p = turns worlds (step s ttl keys p st).0

  abbrev pub IsAnswered : Pc → Type 0
  IsAnswered p = (pat : String) × (reply : Reply AuthzDecision) × (p ≡ answered pat reply)

  rank-zero : (p : Pc) → rank p ≤ 0 → IsAnswered p
  rank-zero (looking pat) h = absurd (omega arith)
  rank-zero (asking pat) h = absurd (omega arith)
  rank-zero (exchanging pat info) h = absurd (omega arith)
  rank-zero (storing pat t d) h = absurd (omega arith)
  rank-zero (answered pat reply) h = (pat, reply, refl)

  turns-rank : (worlds : List S) (p : Pc) → rank p ≤ length worlds → IsAnswered (turns worlds p)
  unfolding turns
  turns-rank [] p h = rank-zero p h
  turns-rank (st ∷ worlds) p h =
      turns-rank worlds (step s ttl keys p st).0 (omega (arith, rank-step p st))

  -- A request has ended once it has made four calls, whatever the others have done to the world
  -- between them.
  pub turns-IsAnswered :
      (worlds : List S) (pat : String) → 4 ≤ length worlds → IsAnswered (turns worlds (begin pat))
  turns-IsAnswered worlds pat h = turns-rank worlds (begin pat) (omega (arith, rank-begin pat))
