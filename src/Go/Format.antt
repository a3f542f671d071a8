-- ===== src/Go/Format.antt =====
-- The decimal digits that `fmt` writes for `%d`.
use Prim.Native.String.{◌∷◌}
use oauth2_token_exchange.Common.{ℕ, zero, suc, ◌/◌, ◌%◌, String, ◌<>◌, ltb, if◌then◌else◌}
use oauth2_token_exchange.Common.Int.{ℤ, pos, negsuc}
use oauth2_token_exchange.Go.Encoding.Hex.{hex_digit}

-- The digits of `n` in front of `tail`. A number has at most as many digits as it has units, so
-- the fuel `suc n` is enough.
decimal_from : ℕ → ℕ → String → String
unfolding hex_digit
decimal_from zero n tail = tail
decimal_from (suc fuel) n tail =
    let here = hex_digit (n % 10) ∷ tail in
    let rest = decimal_from fuel (n / 10) here in if ltb n 10 then here else rest

unfoldable pub decimal : ℕ → String
unfolding decimal_from
decimal n = decimal_from (suc n) n ""

unfoldable pub decimal_ℤ : ℤ → String
unfolding decimal
decimal_ℤ (pos n) = decimal n
decimal_ℤ (negsuc n) = "-" <> decimal (suc n)
