-- ===== src/Go/Encoding/Hex.antt =====
-- `hex.EncodeToString`, and its inverse as a specification.
use Prim.Native.Char.{Char, code, nul}
use oauth2_token_exchange.Common.{
  ℕ, zero, suc, ◌+◌, ◌-◌, ◌*◌, ◌/◌, ◌%◌, ◌≤◌, ◌<◌, String, Bool, true, ◌&&◌, List, [], ◌∷◌, ◌≡◌,
  refl, ap, arith, leb, eqb, eqb_iff, All, if◌then◌else◌,
}

-- The character at a place.
unfoldable pub char_or_nul : String → ℕ → Char
char_or_nul String.[] n = nul
char_or_nul (String.◌∷◌ c s) zero = c
char_or_nul (String.◌∷◌ c s) (suc n) = char_or_nul s n

unfoldable pub hex_digit : ℕ → Char
unfolding char_or_nul
hex_digit = char_or_nul "0123456789abcdef"

-- The digits of a percent escape.
unfoldable pub upper_digit : ℕ → Char
unfolding char_or_nul
upper_digit = char_or_nul "0123456789ABCDEF"

-- `hex.EncodeToString(bytes)`
unfoldable pub hex : List ℕ → String
unfolding hex_digit
hex [] = String.[]
hex (b ∷ bs) = String.◌∷◌ (hex_digit (b / 16)) (String.◌∷◌ (hex_digit (b % 16)) (hex bs))

hex_value : ℕ → ℕ
hex_value c = if leb c 57 then c - 48 else c - 87

-- The bytes that a text of hexadecimal digits stands for.
unfoldable pub of_hex : String → List ℕ
unfolding hex_value
of_hex String.[] = []
of_hex (String.◌∷◌ c String.[]) = []
of_hex (String.◌∷◌ c (String.◌∷◌ d s)) = (hex_value (code c) * 16 + hex_value (code d)) ∷ of_hex s

-- The test passes from `first` on, for `count` numbers.
unfoldable pub passes : (ℕ → Bool) → ℕ → ℕ → Bool
passes test first zero = true
passes test first (suc count) = test first && passes test (suc first) count

pub passes_lem :
    (test : ℕ → Bool) (first count : ℕ) {k : ℕ}
    → passes test first count ≡ true
    → first ≤ k
    → k < first + count
    → test k ≡ true
unfolding passes
passes_lem test first zero all low high = absurd (omega arith)
passes_lem test first (suc count) {k} all low high =
    ground (arith, eqb_iff first k, passes_lem test (suc first) count {k = k})

digit_table : passes (λ d. eqb (hex_value (code (hex_digit d))) d) 0 16 ≡ true
unfolding passes hex_digit hex_value
digit_table = refl

hex_value-hex_digit : (d : ℕ) → d < 16 → hex_value (code (hex_digit d)) ≡ d
hex_value-hex_digit d h = (eqb_iff _ d).0 (passes_lem _ 0 16 digit_table (omega arith) h)

of_hex-cons :
    (b : ℕ) (s : String)
    → of_hex (String.◌∷◌ (hex_digit (b / 16)) (String.◌∷◌ (hex_digit (b % 16)) s))
      ≡ (hex_value (code (hex_digit (b / 16))) * 16 + hex_value (code (hex_digit (b % 16))))
        ∷ of_hex s
unfolding of_hex
of_hex-cons b s = refl

-- No two byte sequences have the same hexadecimal text.
pub of_hex-hex : (bs : List ℕ) → All (λ b. b < 256) bs → of_hex (hex bs) ≡ bs
unfolding of_hex hex
of_hex-hex [] h = refl
of_hex-hex (b ∷ bs) (h, hs) =
    rw
      (
        of_hex-cons b (hex bs),
        hex_value-hex_digit (b / 16) (omega arith),
        hex_value-hex_digit (b % 16) (omega arith),
        of_hex-hex bs hs,
      )
      (ap (λ c. c ∷ bs) (omega arith))
