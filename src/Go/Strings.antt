-- ===== src/Go/Strings.antt =====
-- The functions of Go's `strings` that the program calls. A text is a sequence of code points:
-- Go's invalid UTF-8 has no counterpart here.
pub mod Laws
pub mod Parts
use Prim.Native.Char.{Char, code}
use Prim.Native.String.{[], ◌∷◌}
use mathlib.Core.List
use oauth2_token_exchange.Go.Encoding.Hex.{char_or_nul}
use oauth2_token_exchange.Common.{
  ℕ, ◌-◌, ◌+◌, String, ◌<>◌, Bool, true, false, ◌&&◌, ◌||◌, Option, none, some, List, eqb, leb, ltb,
  ◌==◌, if◌then◌else◌,
}

-- What follows a prefix, if the text has it.
unfoldable pub strip : String → String → Option String
strip [] s = some s
strip (c ∷ p) [] = none
strip (c ∷ p) (d ∷ s) = if eqb (code c) (code d) then strip p s else none

-- `strings.HasPrefix(s, prefix)`
unfoldable pub has_prefix : String → String → Bool
unfolding strip
has_prefix s prefix = elim (strip prefix s) [ none ↦ false | some rest ↦ true ]

-- `strings.TrimPrefix(s, prefix)`
unfoldable pub trim_prefix : String → String → String
unfolding strip
trim_prefix s prefix = elim (strip prefix s) [ none ↦ s | some rest ↦ rest ]

-- `strings.TrimSuffix(s, suffix)`
unfoldable pub trim_suffix : String → String → String
trim_suffix [] suffix = []
trim_suffix (c ∷ s) suffix = if c ∷ s == suffix then [] else c ∷ trim_suffix s suffix

-- `unicode.IsSpace`
unfoldable pub is_space : ℕ → Bool
is_space c =
    (leb 9 c && leb c 13)
    || eqb c 32
    || eqb c 0x85
    || eqb c 0xA0
    || eqb c 0x1680
    || (leb 0x2000 c && leb c 0x200A)
    || eqb c 0x2028
    || eqb c 0x2029
    || eqb c 0x202F
    || eqb c 0x205F
    || eqb c 0x3000

unfoldable pub trim_left : String → String
trim_left [] = []
trim_left (c ∷ s) = if is_space (code c) then trim_left s else c ∷ s

unfoldable pub trim_right : String → String
trim_right [] = []
trim_right (c ∷ s) =
    let rest = trim_right s in if rest == "" && is_space (code c) then [] else c ∷ rest

-- `strings.TrimSpace(s)`
unfoldable pub trim_space : String → String
unfolding trim_left trim_right is_space
trim_space s = trim_right (trim_left s)

-- `strings.Join(parts, separator)`
unfoldable pub join : List String → String → String
join List.[] separator = []
join (List.◌∷◌ s List.[]) separator = s
join (List.◌∷◌ s (List.◌∷◌ t rest)) separator = s <> separator <> join (List.◌∷◌ t rest) separator

abbrev pub grow : Char → List String → List String
grow c List.[] = List.◌∷◌ (c ∷ []) List.[]
grow c (List.◌∷◌ part rest) = List.◌∷◌ (c ∷ part) rest

-- `strings.Split(s, separator)` for a separator of one character
unfoldable pub split : String → ℕ → List String
split [] separator = List.◌∷◌ [] List.[]
split (c ∷ s) separator =
    let rest = split s separator in if eqb (code c) separator then List.◌∷◌ [] rest else grow c rest

-- `unicode.ToLower`, for the letters whose lower case is an ASCII letter. Two of them, U+0130 and
-- U+212A, are not ASCII themselves.
abbrev lower_char : Char → Char
lower_char c =
    let n = code c in
    if leb b'A' n && leb n b'Z'
    then char_or_nul "abcdefghijklmnopqrstuvwxyz" (n - b'A')
    else if eqb n 0x130
    then char_or_nul "i" 0
    else if eqb n 0x212A
    then char_or_nul "k" 0
    else c

-- `strings.ToLower(s)`, of which the other letters are left as they are: no ASCII text tells the
-- difference.
unfoldable pub to_lower : String → String
unfolding char_or_nul
to_lower [] = []
to_lower (c ∷ s) = lower_char c ∷ to_lower s
