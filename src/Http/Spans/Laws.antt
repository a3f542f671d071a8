-- ===== src/Http/Spans/Laws.antt =====
-- pkg/http/client.go: which requests leave a span that is well, and how the headers for tracing act.
use oauth2_token_exchange.Common.{
  ◌<◌, String, Option, none, some, eq_refl, ◌≡◌, inl, inr, refl, arith, leb, Bool-cases,
}
use oauth2_token_exchange.Go.Act.{Reply, returned, failed, panicked}
use oauth2_token_exchange.Go.Map.{get, lookup-insert}
use oauth2_token_exchange.Http.{Request, Response, carrier_set}
use oauth2_token_exchange.Http.Spans.{
  nothing_recorded, ok_status, record_span, record_response, carrier_get,
}

module _ (status_text : Response → String) where
  record_response_ok :
      (resp : Response)
      → (record_response status_text resp nothing_recorded).status ≡ ok_status
      → (resp.status < 400)
        × ((record_response status_text resp nothing_recorded).status_code ≡ some resp.status)
  record_response_ok resp h = elim (Bool-cases (leb 400 resp.status)) [
    | inl bad ↦ absurd (ground arith)
    | inr good ↦ (ground arith, rw good)
  ]

  -- A span whose status is well is that of a request that was answered below status 400, and it
  -- carries that status.
  pub record_span_ok :
      (r : Reply (Option Response))
      → (record_span status_text r nothing_recorded).status ≡ ok_status
      → (resp : Response) × (r ≡ returned (some resp))
        × (resp.status < 400)
        × ((record_span status_text r nothing_recorded).status_code ≡ some resp.status)
  unfolding record_span
  record_span_ok (returned none) h = cc
  record_span_ok (returned (some resp)) h =
      let (low, code) = record_response_ok resp h in (resp, refl, low, code)
  record_span_ok (failed e) h = cc
  record_span_ok (panicked text) h = cc

-- What the carrier has set it gives back.
pub carrier_get-carrier_set :
    (canonical : String → String) (key value : String) (r : Request)
    → carrier_get canonical key (carrier_set canonical key value r) ≡ value
unfolding carrier_get carrier_set
carrier_get-carrier_set canonical key value r =
    rw (lookup-insert (canonical key) (canonical key) value r.headers, eq_refl (canonical key), get)
