-- ===== src/Http/Spans.antt =====
-- pkg/http/client.go and carrier.go: the span of a request, and how its headers are read.
pub mod Laws
use oauth2_token_exchange.Common.{
  ℕ, String, true, false, Option, none, some, List, [], ◌∷◌, ◌++◌, ◌≡◌, ◌⊎◌, inl, inr, refl, arith,
  leb, Bool-cases, map, if◌then◌else◌,
}
use oauth2_token_exchange.Go.Errors.{GoError, error_text}
use oauth2_token_exchange.Go.Act.{Reply, returned, failed, panicked}
use oauth2_token_exchange.Go.Map.{StringMap, get, insert}
use oauth2_token_exchange.Http.{Request, Response, with_header}
use oauth2_token_exchange.Tracer
use oauth2_token_exchange.Tracer.{State, Span, start}

-- `span.SetStatus`
pub data SpanStatus : Type 0 where
  unset ok_status : SpanStatus
  error_status : String → SpanStatus

-- What a span records.
pub record Recorded : Type 0 where
  pub errors : List String
  pub status_code : Option ℕ
  pub status : SpanStatus

abbrev pub nothing_recorded : Recorded
nothing_recorded = record { errors = []; status_code = none; status = unset }

-- `startClientSpan`
unfoldable pub start_client_span :
    {E R F : Type 0} → State E R F → String → String → String → Span E R F
unfolding start
start_client_span st span_name method url =
    start st span_name (("http.method", method) ∷ ("http.url", url) ∷ [])

abbrev record_response : (Response → String) → Response → Recorded → Recorded
record_response status_text resp span =
    if leb 400 resp.status
    then record span { status_code = some resp.status; status = error_status (status_text resp) }
    else record span { status_code = some resp.status; status = ok_status }

-- `recordSpan`, with `resp.Status()`. A panic of the call leaves the span as it is.
unfoldable pub record_span : (Response → String) → Reply (Option Response) → Recorded → Recorded
record_span status_text (failed e) span = record span {
  errors = span.errors ++ error_text e ∷ [];
  status = error_status (error_text e);
}
record_span status_text (returned none) span = span
record_span status_text (returned (some resp)) span = record_response status_text resp span
record_span status_text (panicked text) span = span

-- `restyHeaderCarrier`, over `http.Header`
module _ (canonical : String → String) where
  unfoldable pub carrier_get : String → Request → String
  unfolding get
  carrier_get key r = get r.headers (canonical key)

  unfoldable pub carrier_keys : (StringMap → StringMap) → Request → List String
  carrier_keys range r = map (λ pair. pair.0) (range r.headers)
