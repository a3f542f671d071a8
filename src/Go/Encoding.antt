-- ===== src/Go/Encoding.antt =====
-- `encoding/hex`, `encoding/base64` and the UTF-8 bytes of a text.
pub mod Hex
pub mod Base64
use Prim.Native.Char.{code}
use Prim.Native.String.{[], ◌∷◌}
use mathlib.Core.List
use oauth2_token_exchange.Common.{ℕ, ◌+◌, ◌/◌, ◌%◌, String, List, ◌++◌, ltb, if◌then◌else◌}

abbrev one_byte : ℕ → List ℕ
one_byte b = List.◌∷◌ b List.[]

-- The UTF-8 bytes of one character.
unfoldable pub utf8_char : ℕ → List ℕ
utf8_char c =
    if ltb c 0x80
    then one_byte c
    else if ltb c 0x800
    then one_byte (0xC0 + c / 64) ++ one_byte (0x80 + c % 64)
    else if ltb c 0x10000
    then one_byte (0xE0 + c / 4096) ++ one_byte (0x80 + c / 64 % 64) ++ one_byte (0x80 + c % 64)
    else one_byte (0xF0 + c / 262144)
      ++ one_byte (0x80 + c / 4096 % 64)
      ++ one_byte (0x80 + c / 64 % 64)
      ++ one_byte (0x80 + c % 64)

-- `[]byte(s)`
unfoldable pub bytes : String → List ℕ
unfolding utf8_char
bytes [] = List.[]
bytes (c ∷ s) = utf8_char (code c) ++ bytes s
