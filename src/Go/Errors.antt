-- ===== src/Go/Errors.antt =====
-- Go's error values: the sentinels that the program compares with `errors.Is`, and `fmt.Errorf`.
use oauth2_token_exchange.Common.{Bool, false, String, ◌<>◌}

pub data Sentinel : Type 0 where
  cache_miss redis_nil : Sentinel
  pat_not_found pat_expired invalid_expiration machine_user_not_found failed_to_create_pat :
      Sentinel

abbrev pub sentinel_text : Sentinel → String
sentinel_text cache_miss = "cache miss"
sentinel_text redis_nil = "redis: nil"
sentinel_text pat_not_found = "PAT not found"
sentinel_text pat_expired = "PAT expired"
sentinel_text invalid_expiration = "invalid expiration date"
sentinel_text machine_user_not_found = "machine user not found"
sentinel_text failed_to_create_pat = "failed to create PAT"

-- An error is a sentinel, a text of its own, or `fmt.Errorf("prefix: %w", err)`.
pub data GoError : Type 0 where
  sentinel : Sentinel → GoError
  message : String → GoError
  wrapped : String → GoError → GoError

-- `err.Error()`
unfoldable pub error_text : GoError → String
error_text (sentinel s) = sentinel_text s
error_text (message text) = text
error_text (wrapped prefix e) = prefix <> ": " <> error_text e

-- The sentinel at the end of the chain of wrapped errors satisfies `test`.
unfoldable pub error_is : (Sentinel → Bool) → GoError → Bool
error_is test (sentinel s) = test s
error_is test (message text) = false
error_is test (wrapped prefix e) = error_is test e

-- A value with an error: the error part of a Go pair decides, and the value beside a non-nil error
-- is never read.
pub data Result {ℓ} (A : Type ℓ) : Type ℓ where
  ok : A → Result A
  err : GoError → Result A
