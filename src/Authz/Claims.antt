-- ===== src/Authz/Claims.antt =====
-- internal/domain/authz/service.go: `parseIDTokenClaims` and `hashPAT`.
pub mod Laws
use oauth2_token_exchange.Common.{ℕ, String, ◌<>◌, List, [], ◌∷◌, ◌==◌, if◌then◌else◌}
use oauth2_token_exchange.Go.Errors.{message, wrapped, Result, ok, err}
use oauth2_token_exchange.Go.Strings.{split}
use oauth2_token_exchange.Go.Format.{decimal}
use oauth2_token_exchange.Go.Encoding.{bytes}
use oauth2_token_exchange.Go.Encoding.Hex.{hex}
use oauth2_token_exchange.Go.Encoding.Base64.{Decoded, decoded, corrupt_at, decode_raw_url}
use oauth2_token_exchange.Go.Json.{JsonText}
use oauth2_token_exchange.Go.Json.Decode.{
  Decoder, into_text, into_list, field, into_struct, unmarshal_bytes,
}

-- `hashPAT`, over the digest of `crypto/sha256`
unfoldable pub hash_pat : (List ℕ → List ℕ) → String → String
unfolding bytes hex
hash_pat sha256 pat = hex (sha256 (bytes pat))

pub record IdTokenClaims : Type 0 where
  pub sub : String
  pub email : String
  pub groups : List String
  pub preferred_username : String

abbrev pub no_claims : IdTokenClaims
no_claims = record { sub = ""; email = ""; groups = []; preferred_username = "" }

abbrev place : String → String
place name = "Go struct field idTokenClaims." <> name

unfoldable pub decode_claims : Decoder IdTokenClaims
unfolding into_struct into_list
decode_claims = into_struct "authz.idTokenClaims" (
    field "sub" (into_text (place "sub")) (λ s. s.sub) (λ a s. record s { sub = a })
    ∷ field "email" (into_text (place "email")) (λ s. s.email) (λ a s. record s { email = a })
    ∷ field "groups" (into_list "" (into_text (place "groups")) (place "groups") "[]string")
        (λ s. s.groups) (λ a s. record s { groups = a })
    ∷ field "preferred_username" (into_text (place "preferred_username"))
        (λ s. s.preferred_username) (λ a s. record s { preferred_username = a })
    ∷ [])

module _ (json : JsonText) where
  abbrev pub read_claims : Result IdTokenClaims → Result IdTokenClaims
  read_claims (ok claims) = ok claims
  read_claims (err e) = err (wrapped "failed to unmarshal jwt payload" e)

  abbrev pub read_payload : Decoded → Result IdTokenClaims
  read_payload (corrupt_at i) = err (
      wrapped "failed to decode jwt payload"
        (message ("illegal base64 data at input byte " <> decimal i)))
  read_payload (decoded payload) =
      read_claims (unmarshal_bytes json decode_claims no_claims payload)

  abbrev pub read_parts : List String → Result IdTokenClaims
  read_parts (header ∷ payload ∷ signature ∷ []) = read_payload (decode_raw_url (bytes payload))
  read_parts _ = err (message "invalid jwt format")

  -- `parseIDTokenClaims`: the claims in the middle one of three parts
  unfoldable pub parse_id_token_claims : String → Result IdTokenClaims
  unfolding split decode_raw_url decimal bytes decode_claims
  parse_id_token_claims id_token =
      if id_token == "" then err (message "id token is empty") else read_parts (split id_token b'.')
