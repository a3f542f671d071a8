-- ===== src/Go/Encoding/Base64.antt =====
-- `base64.RawURLEncoding.DecodeString`: no padding, line ends skipped, spare bits ignored.
pub mod Laws
use oauth2_token_exchange.Common.{
  ℕ, ◌+◌, ◌-◌, ◌*◌, ◌/◌, ◌%◌, Option, none, some, ◌&&◌, ◌||◌, List, [], ◌∷◌, leb, eqb, length,
  if◌then◌else◌,
}

-- The six bits that a byte of the alphabet stands for.
unfoldable pub sextet : ℕ → Option ℕ
sextet c =
    if leb b'A' c && leb c b'Z'
    then some (c - 65)
    else if leb b'a' c && leb c b'z'
    then some (c - 71)
    else if leb b'0' c && leb c b'9'
    then some (c + 4)
    else if eqb c b'-'
    then some 62
    else if eqb c b'_'
    then some 63
    else none

pub data Decoded : Type 0 where
  decoded : List ℕ → Decoded
  corrupt_at : ℕ → Decoded

abbrev pub add : ℕ → Decoded → Decoded
add v (decoded vs) = decoded (v ∷ vs)
add v (corrupt_at i) = corrupt_at i

-- The byte `c` at the place `i`, given its value and the values of what follows.
abbrev pub read_byte : Option ℕ → ℕ → ℕ → Decoded → Decoded
read_byte (some v) i c rest = add v rest
read_byte none i c rest = if eqb c 10 || eqb c 13 then rest else corrupt_at i

-- The six-bit values of an input that begins at byte `i`, or the place of its first bad byte.
unfoldable pub sextets : ℕ → List ℕ → Decoded
unfolding sextet
sextets i [] = decoded []
sextets i (c ∷ cs) = let rest = sextets (i + 1) cs in read_byte (sextet c) i c rest

-- Four values make three bytes; a last group of three or two makes two or one.
unfoldable pub pack : List ℕ → List ℕ
pack (a ∷ b ∷ c ∷ d ∷ rest) =
    (a * 4 + b / 16) ∷ (b % 16 * 16 + c / 4) ∷ (c % 4 * 64 + d) ∷ pack rest
pack (a ∷ b ∷ c ∷ []) = (a * 4 + b / 16) ∷ (b % 16 * 16 + c / 4) ∷ []
pack (a ∷ b ∷ []) = (a * 4 + b / 16) ∷ []
pack (a ∷ []) = []
pack [] = []

abbrev pub finish : ℕ → Decoded → Decoded
finish size (corrupt_at i) = corrupt_at i
finish size (decoded vs) =
    if eqb (length vs % 4) 1 then corrupt_at (size - 1) else decoded (pack vs)

-- `base64.RawURLEncoding.DecodeString(s)` on the bytes of the text
unfoldable pub decode_raw_url : List ℕ → Decoded
unfolding sextets pack
decode_raw_url cs = finish (length cs) (sextets 0 cs)
