-- ===== src/Authz/Service/Steps/Interleaved.antt =====
-- Requests that run at once, their calls in any order, with whatever else moves the world and brings
-- nothing into the cache: time, and the calls of the token service.
use oauth2_token_exchange.Common.{
  ℕ, zero, suc, refl, String, Option, some, List, [], ◌∷◌, ◌++◌, ◌≡◌,
}
use oauth2_token_exchange.Go.Map.{StringMap}
use oauth2_token_exchange.Cache.{CachedToken, Duration}
use oauth2_token_exchange.Authz.Service.{Service}
use oauth2_token_exchange.Authz.Service.Steps.{Pc, begin, step, run}

-- The world, and the requests that have come in.
pub record System (S : Type 0) : Type 0 where
  pub world : S
  pub requests : List Pc

module _ {S : Type 0} (s : Service S) (held : S → String → Option CachedToken) (ttl : Duration)
    (keys : StringMap) where
  pub data Step (σ : System S) : System S → Type 0 where
    arrive : (pat : String) → Step σ (record σ { requests = begin pat ∷ σ.requests })
    work :
        (before : List Pc) (p : Pc) (after : List Pc)
        → σ.requests ≡ before ++ p ∷ after
        → Step σ (record {
          world = (step s ttl keys p σ.world).1;
          requests = before ++ (step s ttl keys p σ.world).0 ∷ after;
        })
    environment :
        (world : S)
        → ((h : String) (t : CachedToken) → held world h ≡ some t → held σ.world h ≡ some t)
        → Step σ (record σ { world = world })

  -- What is reached from a world with no request in it.
  pub data Reach (st : S) : System S → Type 0 where
    start : Reach st (record { world = st; requests = [] })
    later : {σ τ : System S} → Reach st σ → Step σ τ → Reach st τ

  -- The last request that has come in may run for a number of steps.
  pub Reach-run :
      (n : ℕ) (p : Pc) (w st : S) (rest : List Pc)
      → Reach st (record { world = w; requests = p ∷ rest })
      → let (q, w') = run s ttl keys n (p, w) in
        Reach st (record { world = w'; requests = q ∷ rest })
  unfolding run
  Reach-run zero p w st rest r = r
  Reach-run (suc n) p w st rest r =
      let (q, w') = step s ttl keys p w in Reach-run n q w' st rest (later r (work [] p rest refl))
