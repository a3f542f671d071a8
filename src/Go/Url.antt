-- ===== src/Go/Url.antt =====
-- `url.Values` with one value for each key, and its `Encode`.
use Prim.Native.Char.{Char, code}
use Prim.Native.String
use Prim.Native.Nat.{Ordering}
use oauth2_token_exchange.Common.{
  ℕ, ◌/◌, ◌%◌, String, ◌<>◌, Bool, ◌&&◌, ◌||◌, List, [], ◌∷◌, leb, eqb, if◌then◌else◌,
}
use oauth2_token_exchange.Go.Encoding.{utf8_char}
use oauth2_token_exchange.Go.Encoding.Hex.{upper_digit}
use oauth2_token_exchange.Go.Map.{StringMap}

-- Letters, digits and `-_.~` stand for themselves.
unreserved : ℕ → Bool
unreserved b =
    (leb b'a' b && leb b b'z')
    || (leb b'A' b && leb b b'Z')
    || (leb b'0' b && leb b b'9')
    || eqb b b'-'
    || eqb b b'_'
    || eqb b b'.'
    || eqb b b'~'

-- `%XX` for each byte of a character.
percent : List ℕ → String
unfolding upper_digit
percent [] = ""
percent (b ∷ bs) =
    "%"
    <> String.◌∷◌ (upper_digit (b / 16)) (String.◌∷◌ (upper_digit (b % 16)) String.[])
    <> percent bs

escape_char : Char → String
unfolding unreserved percent utf8_char
escape_char c =
    if unreserved (code c)
    then String.◌∷◌ c String.[]
    else if eqb (code c) 32
    then "+"
    else percent (utf8_char (code c))

-- `url.QueryEscape(s)`
unfoldable pub query_escape : String → String
unfolding escape_char
query_escape String.[] = ""
query_escape (String.◌∷◌ c s) = escape_char c <> query_escape s

-- The pairs in the order of their keys.
place : String → String → StringMap → StringMap
place k v [] = (k, v) ∷ []
place k v ((j, w) ∷ m) = elim (String.compare k j) [
  | Ordering.gt ↦ (j, w) ∷ place k v m
  | _ ↦ (k, v) ∷ (j, w) ∷ m
]

sorted : StringMap → StringMap
unfolding place
sorted [] = []
sorted ((k, v) ∷ m) = place k v (sorted m)

pairs : StringMap → String
unfolding query_escape
pairs [] = ""
pairs ((k, v) ∷ []) = query_escape k <> "=" <> query_escape v
pairs ((k, v) ∷ m) = query_escape k <> "=" <> query_escape v <> "&" <> pairs m

-- `form.Encode()`
unfoldable pub encode : StringMap → String
unfolding sorted pairs
encode form = pairs (sorted form)
