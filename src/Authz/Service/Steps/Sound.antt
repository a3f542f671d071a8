-- ===== src/Authz/Service/Steps/Sound.antt =====
-- What holds of the cache and of every request, however the requests are interleaved.
use oauth2_token_exchange.Common.{
  String, true, ◌≡◌, refl, subst, Option, none, some, List, ◌∷◌, ◌++◌, All, All-replace, All-at,
}
use oauth2_token_exchange.Go.Act.{returned, panicked}
use oauth2_token_exchange.Go.Map.{StringMap}
use oauth2_token_exchange.Zitadel.Api.{UserInfoGetter}
use oauth2_token_exchange.Cache.{CachedToken, Duration}
use oauth2_token_exchange.Cache.Laws.{IsLawful}
use oauth2_token_exchange.Cache.Held.{get-AllHeld, set-AllHeld}
use oauth2_token_exchange.Authz.Types.{AuthzDecision}
use oauth2_token_exchange.Authz.Claims.{hash_pat}
use oauth2_token_exchange.Authz.Service.{Service}
use oauth2_token_exchange.Authz.Service.History.{IsSeparate}
use oauth2_token_exchange.Authz.Service.Steps.{
  Pc, looking, asking, exchanging, storing, answered, ask, step,
}
use oauth2_token_exchange.Authz.Service.Steps.Right.{
  IsGenuine, IsGrounded, IsRight, begin-IsRight, after_get-IsRight, after_user_info-IsRight,
  after_exchange-IsRight, after_set-IsRight,
}
use oauth2_token_exchange.Authz.Service.Steps.Interleaved.{
  System, Step, arrive, work, environment, Reach, start, later,
}

module _ {S : Type 0} (s : Service S) (Was : S → Type 0) (keys : StringMap) where
  abbrev Right : Pc → Type 0
  Right = IsRight s Was keys

  abbrev Genuine : String → CachedToken → Type 0
  Genuine = IsGenuine s Was

  module _ (held : S → String → Option CachedToken) (lawful : IsLawful s.token_cache held)
      (separate : IsSeparate s held) (ttl : Duration) where
    -- Every token that the world holds is genuine.
    abbrev pub IsClean : S → Type 0
    IsClean st = (h : String) (t : CachedToken) → held st h ≡ some t → Genuine h t

    ask-IsRight :
        (getter : Option (UserInfoGetter S)) (pat : String) (st : S)
        → s.user_info_getter ≡ getter
        → Was st
        → IsClean st
        → let out = ask s ttl keys getter pat st in Right out.0 × IsClean out.1
    ask-IsRight none pat st wired was clean = (tt, clean)
    ask-IsRight (some getter) pat st wired was clean = (
      after_user_info-IsRight s Was keys ttl pat _ (λ info e. record {
        getter = getter;
        wired = wired;
        asked_in = st;
        was = was;
        asked = e;
      }),
      λ h t e. clean h t (separate.held-user_info getter wired pat h st t e),
    )

    -- A step of one request keeps what it knows, and the cache clean.
    pub step-IsRight :
        (p : Pc) (st : S)
        → Was st
        → Right p
        → IsClean st
        → let out = step s ttl keys p st in Right out.0 × IsClean out.1
    unfolding step
    step-IsRight (looking pat) st was right clean =
        let hash = hash_pat s.sha256 pat in
        (
          after_get-IsRight s Was keys ttl pat _
              (λ t e. clean hash t (lawful.get_sound hash st t e)),
          get-AllHeld s.token_cache held lawful Genuine hash st clean,
        )
    step-IsRight (asking pat) st was right clean =
        ask-IsRight s.user_info_getter pat st refl was clean
    step-IsRight (exchanging pat info) st was right clean = (
      after_exchange-IsRight s Was keys ttl pat _ (λ resp claims e parsed. record {
        info = info;
        named = right;
        exchanged_in = st;
        was = was;
        exchanged = e;
        parsed = parsed;
      }),
      λ h t e. clean h t (separate.held-exchange _ _ _ h st t e),
    )
    step-IsRight (storing pat t d) st was (genuine, rightly) clean = (
      after_set-IsRight s Was keys ttl pat d _ rightly,
      set-AllHeld s.token_cache held lawful Genuine _ t ttl st genuine clean,
    )
    step-IsRight (answered pat reply) st was right clean = (right, clean)

    Step-IsRight :
        {σ τ : System S}
        → Was σ.world
        → Step s held ttl keys σ τ
        → All Right σ.requests
        → IsClean σ.world
        → All Right τ.requests × IsClean τ.world
    Step-IsRight was (arrive pat) right clean = ((begin-IsRight s Was keys pat, right), clean)
    Step-IsRight {σ} was (work before p after e) right clean =
        let right' = subst (All Right) e right in
        let (here, _) = All-replace Right before p (answered "" (panicked "")) after right' tt in
        let (there, clean') = step-IsRight p σ.world was here clean in
        ((All-replace Right before p _ after right' there).1, clean')
    Step-IsRight was (environment world keeps) right clean =
        (right, λ h t e. clean h t (keeps h t e))

module _ {S : Type 0} (s : Service S) (held : S → String → Option CachedToken)
    (lawful : IsLawful s.token_cache held) (separate : IsSeparate s held) (ttl : Duration)
    (keys : StringMap) (st : S) where
  -- The world at some point of some interleaving.
  abbrev pub WasReached : S → Type 0
  WasReached w = (σ : System S) × Reach s held ttl keys st σ × (σ.world ≡ w)

  -- Every request knows what `IsRight` says, and the cache stays clean.
  Reach-IsRight :
      {σ : System S}
      → IsClean s WasReached keys held lawful separate ttl st
      → Reach s held ttl keys st σ
      → All (IsRight s WasReached keys) σ.requests
        × IsClean s WasReached keys held lawful separate ttl σ.world
  Reach-IsRight clean start = (tt, clean)
  Reach-IsRight clean (later r step) =
      let (right, clean') = Reach-IsRight clean r in
      Step-IsRight s WasReached keys held lawful separate ttl (_, r, refl) step right clean'

  -- However requests interleave, call by call, with one another and with whatever else brings
  -- nothing into the cache, a request that has ended with an allowed decision, from a world whose
  -- cache is empty, has the decision that is made of an exchange whose id token was read: for a
  -- token with the hash of its own, in worlds that some interleaving reaches, ZITADEL names the
  -- token's user and exchanges that user's name. It holds if the cache is lawful, and the calls
  -- of ZITADEL bring nothing into it.
  pub Reach-IsGrounded :
      {σ : System S} (before : List Pc) (pat : String) (d : AuthzDecision) (after : List Pc)
      → ((h : String) → held st h ≡ none)
      → Reach s held ttl keys st σ
      → σ.requests ≡ before ++ answered pat (returned d) ∷ after
      → d.allow ≡ true
      → IsGrounded s WasReached keys pat d
  Reach-IsGrounded before pat d after empty r e allowed =
      let (right, _) = Reach-IsRight (λ h t e. absurd (cc (empty h))) r in
      All-at (IsRight s WasReached keys) before (answered pat (returned d)) after
        (subst (All (IsRight s WasReached keys)) e right) allowed
