-- ===== src/Transport/Gin.antt =====
-- Requests and responses as the handlers see them through `gin.Context`.
use oauth2_token_exchange.Common.{ℕ, String, [], ◌==◌, if◌then◌else◌}
use oauth2_token_exchange.Go.Act.{Act}
use oauth2_token_exchange.Go.Map.{StringMap, get, insert, delete}

-- The keys of `header` are canonical.
pub record Incoming : Type 0 where
  pub method : String
  pub path : String
  pub header : StringMap

-- What `c.JSON` and `c.String` write, or the answer of the RPC handler.
pub data Content : Type 0 where
  no_content : Content
  error_json : String → Content
  plain : String → Content
  rpc : String → Content

-- The response of a `gin.ResponseWriter`. The content type of the body is not kept.
pub record Outgoing : Type 0 where
  pub status : ℕ
  pub header : StringMap
  pub content : Content

-- The handler of a request, given the response so far.
abbrev pub HandlerFunc : Type 0 → Type 0
HandlerFunc S = Incoming → Outgoing → Act S Outgoing

-- A writer that nothing was written to.
abbrev pub new_writer : Outgoing
new_writer = record { status = 200; header = []; content = no_content }

-- `http.StatusNoContent`, `StatusUnauthorized` and `StatusInternalServerError`
abbrev pub status_no_content : ℕ
status_no_content = 204

abbrev pub status_unauthorized : ℕ
status_unauthorized = 401

abbrev pub status_internal : ℕ
status_internal = 500

-- `textproto.CanonicalMIMEHeaderKey`
module _ (canonical : String → String) where
  -- `c.GetHeader(key)`
  unfoldable pub get_header : Incoming → String → String
  unfolding get
  get_header r key = get r.header (canonical key)

  -- `c.Writer.Header().Set(key, value)`
  unfoldable pub set_header : String → String → Outgoing → Outgoing
  unfolding insert
  set_header key value w = record w { header = insert (canonical key) value w.header }

  -- `c.Header(key, value)`, which deletes the key when the value is empty
  unfoldable pub put_header : String → String → Outgoing → Outgoing
  unfolding set_header delete
  put_header key value w =
      if value == ""
      then record w { header = delete (canonical key) w.header }
      else set_header key value w
