-- ===== src/Go/Encoding/Base64/Laws.antt =====
-- The encoder that `base64.RawURLEncoding` stands for, and that the decoder takes its texts back.
use Prim.Native.Char.{Char, code}
use oauth2_token_exchange.Common.{
  ℕ, ◌+◌, ◌*◌, ◌/◌, ◌%◌, ◌<◌, String, Bool, true, false, not, ◌&&◌, Option, none, some, List, [],
  ◌∷◌, map, ◌≡◌, refl, ap, ◌∙◌, arith, eqb, eqb_iff, ltb, length, All,
}
use oauth2_token_exchange.Go.Encoding.{bytes, utf8_char}
use oauth2_token_exchange.Go.Encoding.Hex.{char_or_nul, passes, passes_lem}
use oauth2_token_exchange.Go.Strings.Parts.{Lacks}
use oauth2_token_exchange.Go.Encoding.Base64.{
  sextet, decoded, read_byte, add, sextets, pack, decode_raw_url,
}

digit : ℕ → Char
unfolding char_or_nul
digit = char_or_nul "ABCDEFGHIJKLMNOPQRSTUVWXYZabcdefghijklmnopqrstuvwxyz0123456789-_"

-- The six-bit values of bytes; the spare bits of the last one are 0.
unpack : List ℕ → List ℕ
unpack (a ∷ b ∷ c ∷ rest) =
    (a / 4) ∷ (a % 4 * 16 + b / 16) ∷ (b % 16 * 4 + c / 64) ∷ (c % 64) ∷ unpack rest
unpack (a ∷ b ∷ []) = (a / 4) ∷ (a % 4 * 16 + b / 16) ∷ (b % 16 * 4) ∷ []
unpack (a ∷ []) = (a / 4) ∷ (a % 4 * 16) ∷ []
unpack [] = []

digits : List ℕ → String
unfolding digit
digits [] = String.[]
digits (v ∷ vs) = String.◌∷◌ (digit v) (digits vs)

-- `base64.RawURLEncoding.EncodeToString(bytes)`
unfoldable pub encode_raw_url : List ℕ → String
unfolding digits unpack
encode_raw_url bs = digits (unpack bs)

-- Decoding a digit gives its value; and a digit is an ASCII character, and no full stop.
abbrev is_value : Option ℕ → ℕ → Bool
is_value none d = false
is_value (some v) d = eqb v d

abbrev good : ℕ → Bool
good d = let c = code (digit d) in is_value (sextet c) d && (ltb c 128 && not (eqb c b'.'))

digit_table : passes good 0 64 ≡ true
unfolding passes digit sextet
digit_table = refl

digit_good : (d : ℕ) → d < 64 → good d ≡ true
digit_good d h = passes_lem good 0 64 digit_table (omega arith) (omega arith)

is_value-eq-some : (o : Option ℕ) (d : ℕ) → is_value o d ≡ true → o ≡ some d
is_value-eq-some none d h = cc
is_value-eq-some (some v) d h = ap some ((eqb_iff v d).0 h)

sextet-digit : (d : ℕ) → d < 64 → sextet (code (digit d)) ≡ some d
sextet-digit d h = is_value-eq-some _ d (ground (arith, digit_good d h))

IsAscii : (d : ℕ) → d < 64 → code (digit d) < 128
IsAscii d h = ground (arith, digit_good d h)

digit-ne-dot : (d : ℕ) → d < 64 → eqb (code (digit d)) b'.' ≡ false
digit-ne-dot d h = ground (arith, digit_good d h)

digits-Lacks : (vs : List ℕ) → All (λ v. v < 64) vs → Lacks b'.' (digits vs)
unfolding digits
digits-Lacks [] h = tt
digits-Lacks (v ∷ vs) (h, hs) = (digit-ne-dot v h, digits-Lacks vs hs)

codes : List ℕ → List ℕ
codes vs = map (λ v. code (digit v)) vs

utf8_char-ascii : (c : ℕ) → c < 128 → utf8_char c ≡ c ∷ []
unfolding utf8_char
utf8_char-ascii c h = ground arith

bytes-digits : (vs : List ℕ) → All (λ v. v < 64) vs → bytes (digits vs) ≡ codes vs
unfolding bytes digits codes
bytes-digits [] h = refl
bytes-digits (v ∷ vs) (h, hs) =
    rw (utf8_char-ascii (code (digit v)) (IsAscii v h), bytes-digits vs hs)

sextets-codes : (i : ℕ) (vs : List ℕ) → All (λ v. v < 64) vs → sextets i (codes vs) ≡ decoded vs
unfolding sextets codes
sextets-codes i [] h = refl
sextets-codes i (v ∷ vs) (h, hs) =
    let c = code (digit v) in
    ap (λ o. read_byte o i c (sextets (i + 1) (codes vs))) (sextet-digit v h)
    ∙ ap (add v) (sextets-codes (i + 1) vs hs)

unpack-bound : (bs : List ℕ) → All (λ b. b < 256) bs → All (λ v. v < 64) (unpack bs)
unfolding unpack
unpack-bound (a ∷ b ∷ c ∷ rest) (ha, (hb, (hc, hs))) =
    (omega arith, (omega arith, (omega arith, (omega arith, unpack-bound rest hs))))
unpack-bound (a ∷ b ∷ []) (ha, (hb, _)) = omega arith
unpack-bound (a ∷ []) (ha, _) = omega arith
unpack-bound [] h = tt

pack-unpack : (bs : List ℕ) → All (λ b. b < 256) bs → pack (unpack bs) ≡ bs
unfolding pack unpack
pack-unpack (a ∷ b ∷ c ∷ rest) (ha, (hb, (hc, hs))) = ground (arith, pack-unpack rest hs)
pack-unpack (a ∷ b ∷ []) (ha, (hb, _)) = ground arith
pack-unpack (a ∷ []) (ha, _) = ground arith
pack-unpack [] h = refl

length-unpack : (bs : List ℕ) → eqb (length (unpack bs) % 4) 1 ≡ false
unfolding unpack
length-unpack (a ∷ b ∷ c ∷ rest) = ground (arith, length-unpack rest)
length-unpack (a ∷ b ∷ []) = refl
length-unpack (a ∷ []) = refl
length-unpack [] = refl

-- The decoder takes back what the encoder writes.
pub decode_raw_url-encode_raw_url :
    (bs : List ℕ) → All (λ b. b < 256) bs → decode_raw_url (bytes (encode_raw_url bs)) ≡ decoded bs
unfolding decode_raw_url encode_raw_url
decode_raw_url-encode_raw_url bs h =
    let small = unpack-bound bs h in
    rw (
      bytes-digits (unpack bs) small,
      sextets-codes 0 (unpack bs) small,
      length-unpack bs,
      pack-unpack bs h,
    )

-- No full stop stands in an encoded text.
pub encode_raw_url-Lacks : (bs : List ℕ) → All (λ b. b < 256) bs → Lacks b'.' (encode_raw_url bs)
unfolding encode_raw_url
encode_raw_url-Lacks bs h = digits-Lacks (unpack bs) (unpack-bound bs h)
