-- ===== src/Http.antt =====
-- pkg/http/client.go and carrier.go: the shared HTTP client. Requests are built by options, get the
-- headers for tracing, and are sent through resty, which is the interface `Network`. Its spans are in
-- Http/Spans.antt.
pub mod Laws
pub mod Spans
use oauth2_token_exchange.Common.{
  ℕ, String, Bool, true, false, Option, none, some, List, [], ◌∷◌, ◌==◌, if◌then◌else◌,
}
use oauth2_token_exchange.Go.Errors.{Result, ok, err}
use oauth2_token_exchange.Go.Act.{Act, pure, lift, ◌>>=◌}
use oauth2_token_exchange.Go.Map.{StringMap, insert}
use oauth2_token_exchange.Go.Json.{Json}
use oauth2_token_exchange.Go.Json.Decode.{Decoder, unmarshal}

pub data Body : Type 0 where
  empty : Body
  form : String → Body
  json : Json → Body

-- A `resty.Request`, with the method and address that it is sent to.
pub record Request : Type 0 where
  pub method : String
  pub url : String
  pub token : Option String
  pub user_info : Option (String × String)
  pub headers : StringMap
  pub body : Body

-- A `resty.Response`. `document` is the JSON value that resty hands to the decoder of `SetResult`:
-- there is one if the status is from 200 to 299 and the content type is JSON.
pub record Response : Type 0 where
  pub status : ℕ
  pub text : String
  pub document : Option Json

-- resty, and the propagator of OpenTelemetry. `send` sends a request, and again after a transport or
-- syntax error or a document that the test refuses, until the retries are used up: it gives the last
-- response, or the last of these errors. The test tells whether a document can be decoded into the
-- target; what a refused document has left in the target is not modelled. `propagated` is what the
-- propagator, if there is one, injects in a world, and `canonical` spells the key of a header.
pub record Network (S : Type 0) : Type 0 where
  pub send : Request → (Json → Bool) → Act S Response
  pub canonical : String → String
  pub propagated : S → Option StringMap

abbrev pub RequestOption : Type 0
RequestOption = Request → Request

unfoldable pub with_auth_token : String → RequestOption
with_auth_token token r = record r { token = some token }

unfoldable pub with_basic_auth : String → String → RequestOption
with_basic_auth user pass r = if user == "" then r else record r { user_info = some (user, pass) }

unfoldable pub with_body : Body → RequestOption
with_body b r = record r { body = b }

unfoldable pub with_header : String → String → RequestOption
unfolding insert
with_header key value r = record r { headers = insert key value r.headers }

unfoldable pub with_content_type : String → RequestOption
unfolding insert
with_content_type content_type r = record r {
  headers = insert "Content-Type" content_type r.headers;
}

-- A `resty.Client`. The timeout and the retries act within `Network`.
pub record RestyClient : Type 0 where
  pub timeout_seconds : ℕ
  pub retry_count : ℕ
  pub headers : StringMap

abbrev pub default_timeout : ℕ
default_timeout = 60

abbrev pub default_retry : ℕ
default_retry = 2

abbrev pub new_client : RestyClient
new_client = record {
  timeout_seconds = default_timeout;
  retry_count = default_retry;
  headers = ("Content-Type", "application/json") ∷ ("Accept", "application/json") ∷ [];
}

-- `getClient`: the client, and the global variable after it, which the first call sets.
unfoldable pub get_client : Option RestyClient → RestyClient × Option RestyClient
get_client none = (new_client, some new_client)
get_client (some c) = (c, some c)

-- A request of that client, with its default headers.
unfoldable pub new_request : String → String → Request
new_request method url = record {
  method = method;
  url = url;
  token = none;
  user_info = none;
  headers = new_client.headers;
  body = empty;
}

unfoldable pub apply_options : List RequestOption → Request → Request
apply_options [] r = r
apply_options (option ∷ options) r = apply_options options (option r)

abbrev pub decode_document : {A : Type 0} → Decoder A → A → Option Json → Result A
decode_document decode target none = ok target
decode_document decode target (some v) = unmarshal decode target v

abbrev is_ok : {A : Type 0} → Result A → Bool
is_ok (ok a) = true
is_ok (err e) = false

-- Whether a document can be decoded into the target.
abbrev pub readable : {A : Type 0} → Decoder A → A → Json → Bool
readable decode target v = is_ok (unmarshal decode target v)

-- The response, and what the target of `WithResult` holds after it.
abbrev pub read_response : {S A : Type 0} → Decoder A → A → Response → Act S (Response × A)
read_response decode target resp = do
  result ← lift (decode_document decode target resp.document)
  pure (resp, result)

-- `restyHeaderCarrier.Set`, over `http.Header`
unfoldable pub carrier_set : (String → String) → String → String → Request → Request
unfolding with_header
carrier_set canonical key value r = with_header (canonical key) value r

-- The propagator sets fields through the carrier.
abbrev pub set_all : (String → String) → StringMap → Request → Request
set_all canonical [] r = r
set_all canonical ((key, value) ∷ fields) r =
    set_all canonical fields (carrier_set canonical key value r)

-- `injectTracingHeaders`, for the fields that the propagator, if there is one, injects
unfoldable pub inject_tracing_headers : (String → String) → Option StringMap → Request → Request
unfolding carrier_set
inject_tracing_headers canonical none r = r
inject_tracing_headers canonical (some fields) r = set_all canonical fields r

-- The request as it is sent in a world.
abbrev pub prepared : {S : Type 0} → Network S → String → String → List RequestOption → S → Request
prepared net method url options st =
    inject_tracing_headers net.canonical (net.propagated st)
      (apply_options options (new_request method url))

-- `Request` with `WithResult(&target)` among its options.
unfoldable pub request :
    {S A : Type 0}
    → Network S
    → String
    → String
    → List RequestOption
    → Decoder A
    → A
    → Act S (Response × A)
unfolding new_request apply_options inject_tracing_headers
request net method url options decode target st =
    (net.send (prepared net method url options st) (readable decode target)
        >>= read_response decode target)
      st

module _ {S A : Type 0} (net : Network S) (url : String) (options : List RequestOption)
    (decode : Decoder A) (target : A) where
  -- `Get`
  abbrev pub get : Act S (Response × A)
  get = request net "GET" url options decode target

  -- `Post`
  abbrev pub post : Act S (Response × A)
  post = request net "POST" url options decode target

  -- `Delete`
  abbrev pub delete : Act S (Response × A)
  delete = request net "DELETE" url options decode target
