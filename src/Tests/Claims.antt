-- ===== src/Tests/Claims.antt =====
-- An id token that is read, and the part of a token that a span shows.
use oauth2_token_exchange.Common.{ℕ, ◌≤◌, ◌<◌, List, [], ◌∷◌, ◌++◌, ◌≡◌, ◌⊎◌, refl, arith, length}
use oauth2_token_exchange.Go.Encoding.{bytes}
use oauth2_token_exchange.Go.Json.Decode.{unmarshal_bytes}
use oauth2_token_exchange.Authz.Claims.{
  no_claims, decode_claims, read_claims, parse_id_token_claims,
}
use oauth2_token_exchange.Authz.Claims.Laws.{issued, parse_id_token_claims-issued}
use oauth2_token_exchange.Authz.App.{get_pat_prefix, get_pat_prefix_bounds}
use oauth2_token_exchange.Tests.Memory.{json}

-- `{}`
abbrev payload : List ℕ
payload = b'{' ∷ b'}' ∷ []

parse_id_token_claims-issued_example :
    parse_id_token_claims json (issued json "h" "s" payload (refl, tt) (refl, tt) (omega arith))
    ≡ read_claims json (unmarshal_bytes json decode_claims no_claims payload)
parse_id_token_claims-issued_example =
    parse_id_token_claims-issued json "h" "s" payload (refl, tt) (refl, tt) (omega arith)

abbrev long_pat : List ℕ
long_pat = bytes "secret-token"

get_pat_prefix_bounds_example :
    ((length long_pat ≤ 8) × (get_pat_prefix long_pat ≡ bytes "***"))
    ⊎ ((start : List ℕ) × (rest : List ℕ) × (long_pat ≡ start ++ rest)
        × (length start ≡ 8)
        × (0 < length rest)
        × (get_pat_prefix long_pat ≡ start ++ bytes "..."))
get_pat_prefix_bounds_example = get_pat_prefix_bounds long_pat
