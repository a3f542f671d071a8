-- ===== src/Transport/Server/Checked.antt =====
-- What the whole server guarantees of a check that it answers with status 200, after whatever checks
-- have run at once before it.
use oauth2_token_exchange.Common.{
  String, Option, none, [], ◌∷◌, ◌≡◌, inl, inr, refl, sym, ap, subst, ◌∙◌, arith,
}
use oauth2_token_exchange.Go.Act.{Reply, returned}
use oauth2_token_exchange.Cache.{CachedToken, Redis, redis_cache}
use oauth2_token_exchange.Cache.Laws.{IsLawful}
use oauth2_token_exchange.Authz.Types.{AuthzDecision}
use oauth2_token_exchange.Authz.Service.{Service, bare_token, authorize_pat}
use oauth2_token_exchange.Authz.Service.History.{IsSeparate}
use oauth2_token_exchange.Authz.Service.Steps.{Pc, answered, begin}
use oauth2_token_exchange.Authz.Service.Steps.Run.{run-begin}
use oauth2_token_exchange.Authz.Service.Steps.Interleaved.{System, Reach, later, arrive, Reach-run}
use oauth2_token_exchange.Transport.Gin.{Incoming, Outgoing, new_writer}
use oauth2_token_exchange.Transport.Config.{Config}
use oauth2_token_exchange.Transport.Check.{Handler, handle_check, put_headers}
use oauth2_token_exchange.Transport.Check.Laws.{token_header, handle_check_returned}
use oauth2_token_exchange.Transport.Server.{Platform, authz_domain_service, new_handler}
use oauth2_token_exchange.Transport.Server.Interleaved.{IsBackedDecision, Reach-accepted}

module _ {S O : Type 0} (p : Platform S O) (cfg : Config) (redis : Redis S)
    (held : S → String → Option CachedToken) (lawful : IsLawful (redis_cache redis p.json) held)
    (separate : IsSeparate (authz_domain_service p cfg redis) held) (st : S) where
  abbrev h : Handler S
  h = new_handler p cfg redis

  abbrev s : Service S
  s = authz_domain_service p cfg redis

  -- A request that comes in to a reached system, and is decided on its own, is answered there.
  Reach-decided :
      {σ : System S} (pat : String)
      → Reach s held h.cache_ttl h.keys st σ
      → let out = authorize_pat s pat h.cache_ttl h.keys σ.world in
        Reach s held h.cache_ttl h.keys st
          (record { world = out.1; requests = answered (bare_token pat) out.0 ∷ σ.requests })
  Reach-decided {σ} pat reach =
      subst
        (λ (x : Pc × S).
          Reach s held h.cache_ttl h.keys st (record { world = x.1; requests = x.0 ∷ σ.requests }))
        (run-begin s h.cache_ttl h.keys pat 0 σ.world)
        (Reach-run s held h.cache_ttl h.keys 4 (begin pat) σ.world st σ.requests
          (later reach (arrive pat)))

  -- The answer is made of a decision that ZITADEL backs, on the bare token of the request's header.
  abbrev pub IsBackedAnswer : Incoming → Outgoing → Type 0
  IsBackedAnswer r out =
      (d : AuthzDecision) × IsBackedDecision p cfg redis held lawful separate h.cache_ttl h.keys st
        (bare_token (bare_token (token_header h r))) d
      × (out ≡ record (put_headers p.canonical (p.range d.headers) new_writer) { status = 200 })

  -- In a world that checks have led to from one with an empty cache, however their calls
  -- interleave, a check is answered with status 200 only with the headers of a decision made of
  -- the claims of an id token: ZITADEL answered, below status 400 and in worlds that some
  -- interleaving reaches, the request for the user information of a token with the hash of the
  -- header's bare token, and the request for an exchange of a user's name with the admin token as
  -- actor; the user is the one of the first answer, and the id token that of the second. It holds
  -- if the cache over Redis is lawful, and the calls of ZITADEL bring nothing into the cache.
  pub handle_check_ok :
      {σ : System S} (r : Incoming) (out : Outgoing)
      → ((hash : String) → held st hash ≡ none)
      → Reach s held h.cache_ttl h.keys st σ
      → (handle_check h r new_writer σ.world).0 ≡ returned out
      → out.status ≡ 200
      → IsBackedAnswer r out
  unfolding new_handler
  handle_check_ok {σ} r out empty reach e fine =
      let pat = bare_token (token_header h r) in
      elim (handle_check_returned h r new_writer out σ.world e) [
        | inl (d, gave, allowed, same) ↦ (
          d,
          Reach-accepted p cfg redis held lawful separate h.cache_ttl h.keys st [] (bare_token pat)
              d σ.requests empty
              (subst
                (λ (x : Reply AuthzDecision). Reach s held h.cache_ttl h.keys st (record {
                  world = (authorize_pat s pat h.cache_ttl h.keys σ.world).1;
                  requests = answered (bare_token pat) x ∷ σ.requests;
                }))
                gave (Reach-decided pat reach))
              refl allowed,
          same,
        )
        | inr (inl (d, gave, denied, same)) ↦
            absurd (let wrong = sym (ap (λ (o : Outgoing). o.status) same) ∙ fine in omega arith)
        | inr (inr (inl (missing, same))) ↦
            absurd (let wrong = sym (ap (λ (o : Outgoing). o.status) same) ∙ fine in omega arith)
        | inr (inr (inr (error, gave, same))) ↦
            absurd (let wrong = sym (ap (λ (o : Outgoing). o.status) same) ∙ fine in omega arith)
      ]
