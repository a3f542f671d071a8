-- ===== src/Http/Laws.antt =====
-- What a request that returned has received, and with which headers it was sent.
use oauth2_token_exchange.Common.{
  String, Option, none, some, List, [], ◌∷◌, ◌≡◌, refl, ap, subst, ◌∙◌,
}
use oauth2_token_exchange.Go.Errors.{Result, ok, err}
use oauth2_token_exchange.Go.Act.{Act, returned, lift, pure, ◌>>=◌}
use oauth2_token_exchange.Go.Act.Laws.{>>=-eq-returned, returned-injective, state-continue}
use oauth2_token_exchange.Go.Map.{StringMap, insert}
use oauth2_token_exchange.Go.Json.{Json}
use oauth2_token_exchange.Go.Json.Decode.{Decoder, unmarshal}
use oauth2_token_exchange.Http.{
  Request, Response, Network, RequestOption, request, prepared, readable, set_all, carrier_set,
  inject_tracing_headers, read_response, decode_document, with_header,
}

-- Headers with the fields of a propagator, if there is one, each under the spelling of its key.
abbrev with_fields : (String → String) → StringMap → StringMap → StringMap
with_fields canonical [] headers = headers
with_fields canonical ((key, value) ∷ fields) headers =
    with_fields canonical fields (insert (canonical key) value headers)

abbrev pub with_propagated : (String → String) → Option StringMap → StringMap → StringMap
with_propagated canonical none headers = headers
with_propagated canonical (some fields) headers = with_fields canonical fields headers

set_all_lem :
    (canonical : String → String) (fields : StringMap) (r : Request)
    → set_all canonical fields r ≡ record r { headers = with_fields canonical fields r.headers }
unfolding carrier_set with_header
set_all_lem canonical [] r = refl
set_all_lem canonical ((key, value) ∷ fields) r =
    set_all_lem canonical fields (carrier_set canonical key value r)

-- Injection changes the headers only.
pub inject_tracing_headers_lem :
    (canonical : String → String) (fields : Option StringMap) (r : Request)
    → inject_tracing_headers canonical fields r
      ≡ record r { headers = with_propagated canonical fields r.headers }
unfolding inject_tracing_headers
inject_tracing_headers_lem canonical none r = refl
inject_tracing_headers_lem canonical (some fields) r = set_all_lem canonical fields r

-- What the target holds: what the document decodes to, or what it held if there is none.
abbrev pub IsRead : {A : Type 0} → Decoder A → A → Option Json → A → Type 0
IsRead decode target none value = value ≡ target
IsRead decode target (some v) value = unmarshal decode target v ≡ ok value

decode_document-IsRead :
    {A : Type 0} (decode : Decoder A) (target : A) (document : Option Json) (value : A)
    → decode_document decode target document ≡ ok value
    → IsRead decode target document value
decode_document-IsRead decode target none value h = cc
decode_document-IsRead decode target (some v) value h = h

lift-returned :
    {S A : Type 0} (x : Result A) (st : S) {a : A} → (lift x st).0 ≡ returned a → x ≡ ok a
lift-returned (ok b) st h = cc
lift-returned (err e) st h = cc

read-state :
    {S A : Type 0} (x : Result A) (resp : Response) (st : S)
    → let received : A → Act S (Response × A) = λ result. pure (resp, result) in
      ((lift x >>= received) st).1 ≡ st
read-state (ok a) resp st = refl
read-state (err e) resp st = refl

module _ {S A : Type 0} (net : Network S) (method url : String) (options : List RequestOption)
    (decode : Decoder A) (target : A) where
  pub request_returned :
      (st : S) (answer : Response × A)
      → (request net method url options decode target st).0 ≡ returned answer
      → ((net.send (prepared net method url options st) (readable decode target) st).0
          ≡ returned (answer.0))
        × IsRead decode target answer.0.document answer.1
  unfolding request
  request_returned st answer h =
      let (resp, sent, h1) =
        >>=-eq-returned (net.send (prepared net method url options st) (readable decode target))
          (read_response decode target) st h in
      let (result, read, h2) =
        >>=-eq-returned (lift (decode_document decode target resp.document)) _ _ h1 in
      let same = returned-injective _ _ h2 in
      (
        sent ∙ ap (λ (a : Response × A). returned a.0) same,
        subst (λ (a : Response × A). IsRead decode target a.0.document a.1) same
            (decode_document-IsRead decode target resp.document result (lift-returned _ _ read)),
      )

  -- Only sending moves the world.
  pub request-state :
      (st : S)
      → (request net method url options decode target st).1
        ≡ (net.send (prepared net method url options st) (readable decode target) st).1
  unfolding request
  request-state st =
      let call = net.send (prepared net method url options st) (readable decode target) st in
      state-continue (λ s. s ≡ call.1) call.0 (read_response decode target) call.1 refl
        (λ resp _. read-state (decode_document decode target resp.document) resp call.1)
