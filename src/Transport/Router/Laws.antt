-- ===== src/Transport/Router/Laws.antt =====
-- What the engine answers when a handler panics.
use oauth2_token_exchange.Common.{
  String, Bool, ◌&&◌, not, true, false, Option, none, some, List, ◌==◌, eq_iff, ◌≡◌, ◌≢◌, inl, inr,
  refl, ap, ◌∙◌, Bool-cases, if◌then◌else◌,
}
use oauth2_token_exchange.Go.Act.{Act, Reply, returned, panicked}
use oauth2_token_exchange.Go.Strings.{has_prefix}
use oauth2_token_exchange.Transport.Gin.{
  Incoming, Outgoing, HandlerFunc, new_writer, no_content, get_header,
}
use oauth2_token_exchange.Transport.Cors.{cors_middleware, cors_headers, allowed, is_empty}
use oauth2_token_exchange.Transport.Router.{
  route, recovered, recovering, Handlers, handler_of, redirection, unless_redirected, new_router,
}

-- The response as a handler finds it: with the cross-origin headers on the paths of the token service.
abbrev pub found_by : (String → String) → List String → Incoming → Outgoing
found_by canonical origins r =
    if has_prefix r.path "/pat.v1.PATService"
    then cors_headers canonical origins (get_header canonical r "Origin") new_writer
    else new_writer

if-content :
    (b : Bool) (x y : Outgoing)
    → x.content ≡ no_content
    → y.content ≡ no_content
    → (if b then x else y).content ≡ no_content
if-content true x y h k = h
if-content false x y h k = k

found_by-content :
    (canonical : String → String) (origins : List String) (r : Incoming)
    → (found_by canonical origins r).content ≡ no_content
unfolding cors_headers
found_by-content canonical origins r =
    let origin = get_header canonical r "Origin" in
    if-content (has_prefix r.path "/pat.v1.PATService") _ new_writer
      (if-content (not (origin == "") && allowed origins origin) _ _ refl
        (if-content (is_empty origins) _ new_writer refl refl))
      refl

module _ {S : Type 0} (canonical : String → String) (origins : List String) where
  recovering-panicked :
      (next : HandlerFunc S) (r : Incoming) (w : Outgoing) (st st' : S) (text : String)
      → next r w st ≡ (panicked text, st')
      → recovering next r w st ≡ (returned (record w { status = 500 }), st')
  recovering-panicked next r w st st' text e =
      ap (λ (x : Reply Outgoing × S). (returned (recovered w x.0), x.1)) e

  cors_middleware-panicked :
      (next : HandlerFunc S) (r : Incoming) (st st' : S) (text : String)
      → r.method ≢ "OPTIONS"
      → next r (found_by canonical origins r) st ≡ (panicked text, st')
      → cors_middleware canonical origins (recovering next) r new_writer st
        ≡ (returned (record (found_by canonical origins r) { status = 500 }), st')
  unfolding cors_middleware
  cors_middleware-panicked next r st st' text other e =
      elim (Bool-cases (has_prefix r.path "/pat.v1.PATService")) [
        | inl for_pats ↦ elim (Bool-cases (r.method == "OPTIONS")) [
          | inl preflight ↦ absurd (other ((eq_iff r.method "OPTIONS").0 preflight))
          | inr sent ↦
              rw (for_pats, sent) (recovering-panicked next r _ st st' text (rw for_pats at e))
        ]
        | inr for_others ↦
            rw for_others (recovering-panicked next r _ st st' text (rw for_others at e))
      ]

  unless_redirected-none :
      (o : Option Outgoing) (chain : Act S Outgoing) (st : S)
      → o ≡ none
      → unless_redirected o chain st ≡ chain st
  unless_redirected-none none chain st e = refl
  unless_redirected-none (some out) chain st e = cc

  -- If the handler that gin chooses for a request panics, then the request is answered all the
  -- same, with status 500 and no content, and the world is as the handler left it. The method is
  -- not OPTIONS, and gin does not redirect the request; the handler is called with the
  -- cross-origin headers on the paths of the token service.
  pub new_router_recovers :
      (h : Handlers S) (r : Incoming) (st st' : S) (text : String)
      → r.method ≢ "OPTIONS"
      → redirection canonical origins h (route r) r ≡ none
      → handler_of canonical origins h (route r) r (found_by canonical origins r) st
        ≡ (panicked text, st')
      → (out : Outgoing) × (new_router canonical origins h r st ≡ (returned out, st'))
        × (out.status ≡ 500)
        × (out.content ≡ no_content)
  unfolding new_router
  new_router_recovers h r st st' text other stays e = (
    record (found_by canonical origins r) { status = 500 },
    unless_redirected-none (redirection canonical origins h (route r) r)
          (cors_middleware canonical origins (recovering (handler_of canonical origins h (route r)))
            r new_writer)
          st stays
        ∙ cors_middleware-panicked (handler_of canonical origins h (route r)) r st st' text other e,
    refl,
    found_by-content canonical origins r,
  )
