-- ===== src/Authz/Claims/Laws.antt =====
-- `parseIDTokenClaims` of internal/domain/authz/service.go reads what an issuer has encoded.
use Prim.Native.Char.{Char}
use oauth2_token_exchange.Go.Errors.{err, message}
use oauth2_token_exchange.Common.{
  ℕ, ◌<◌, String, ◌<>◌, List, [], ◌∷◌, ◌==◌, eq_iff, false, ◌≡◌, ◌≢◌, refl, ap, sym, ◌∙◌, arith,
  All, if◌then◌else◌,
}
use oauth2_token_exchange.Go.Strings.{split}
use oauth2_token_exchange.Go.Strings.Parts.{Lacks, split-of_Lacks, split-append}
use oauth2_token_exchange.Go.Encoding.Base64.Laws.{
  encode_raw_url, encode_raw_url-Lacks, decode_raw_url-encode_raw_url,
}
use oauth2_token_exchange.Go.Json.{JsonText}
use oauth2_token_exchange.Go.Json.Decode.{unmarshal_bytes}
use oauth2_token_exchange.Authz.Claims.{
  no_claims, decode_claims, read_claims, read_payload, read_parts, parse_id_token_claims,
}

module _ (json : JsonText) (header signature : String) (payload : List ℕ)
    (plain_header : Lacks b'.' header) (plain_signature : Lacks b'.' signature)
    (are_bytes : All (λ b. b < 256) payload) where
  -- An id token as its issuer puts it together.
  abbrev pub issued : String
  issued = header <> ("." <> (encode_raw_url payload <> ("." <> signature)))

  split-issued : split issued b'.' ≡ header ∷ encode_raw_url payload ∷ signature ∷ []
  split-issued =
      let dot : Char = "." in
      split-append header (encode_raw_url payload <> ("." <> signature)) dot plain_header refl
      ∙ ap (λ parts. header ∷ parts)
          (split-append (encode_raw_url payload) signature dot
              (encode_raw_url-Lacks payload are_bytes) refl
            ∙ ap (λ parts. encode_raw_url payload ∷ parts)
                (split-of_Lacks signature b'.' plain_signature))

  issued-ne-empty : issued ≢ ""
  unfolding split
  issued-ne-empty e = let parts = sym split-issued ∙ ap (λ s. split s b'.') e in cc

  -- An id token that is put together of a header, the unpadded base64 text of a payload and a
  -- signature, where no full stop stands in the header and the signature, is read as the claims
  -- that the payload's JSON holds, or as the error of reading it.
  pub parse_id_token_claims-issued :
      parse_id_token_claims json issued
      ≡ read_claims json (unmarshal_bytes json decode_claims no_claims payload)
  unfolding parse_id_token_claims
  parse_id_token_claims-issued =
      let given : (issued == "") ≡ false = ground (arith, eq_iff issued "", issued-ne-empty) in
      ap (λ b. if b then err (message "id token is empty") else read_parts json (split issued b'.'))
        given
      ∙ ap (read_parts json) split-issued
      ∙ ap (read_payload json) (decode_raw_url-encode_raw_url payload are_bytes)
