-- ===== src/Go/Time.antt =====
-- Go's `time.Time`: seconds since the year 1 in an `int64`, and nanoseconds. Calendar texts are left
-- to an interface.
use native.Mathlib.Omega.{arith}
use Prim.Native.Nat.{◌+◌}
use oauth2_token_exchange.Common.{◌≡◌, ℕ, String, Bool, ◌&&◌, ◌||◌, ltb, eqb}
use oauth2_token_exchange.Common.Int.{
  ℤ, pos, pos_part, neg_part, ◌+ℤ◌, ◌-ℤ◌, ltb_ℤ, wrap64, wrap64-sub-add, IsInt64,
}
use oauth2_token_exchange.Go.Errors.{Result}

pub record Time : Type 0 where
  pub sec : ℤ
  pub nsec : ℕ

abbrev pub zero_time : Time
zero_time = record { sec = pos 0; nsec = 0 }

abbrev eqb_ℤ : ℤ → ℤ → Bool
eqb_ℤ a b = eqb (pos_part a + neg_part b) (pos_part b + neg_part a)

-- `t.IsZero()`
unfoldable pub is_zero : Time → Bool
is_zero t = eqb_ℤ t.sec (pos 0) && eqb t.nsec 0

-- `t.Before(u)`
unfoldable pub before : Time → Time → Bool
before t u = ltb_ℤ t.sec u.sec || (eqb_ℤ t.sec u.sec && ltb t.nsec u.nsec)

-- The seconds from the year 1 to 1970.
abbrev pub unix_to_internal : ℕ
unix_to_internal = 62135596800

-- `time.Unix(seconds, 0)`
unfoldable pub of_unix : ℤ → Time
of_unix seconds = record { sec = wrap64 (seconds +ℤ pos unix_to_internal); nsec = 0 }

-- `t.Unix()`
unfoldable pub unix : Time → ℤ
unix t = wrap64 (t.sec -ℤ pos unix_to_internal)

-- A number of seconds survives the conversion to a time and back.
pub unix-of_unix : (seconds : ℤ) → IsInt64 seconds → unix (of_unix seconds) ≡ seconds
unfolding unix of_unix
unix-of_unix seconds h = wrap64-sub-add seconds unix_to_internal h (omega arith)

-- `t.Format(time.RFC3339)` and `time.Parse(time.RFC3339, s)`
pub record Rfc3339 : Type 0 where
  pub format : Time → String
  pub parse : String → Result Time
