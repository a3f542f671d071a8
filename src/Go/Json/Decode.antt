-- ===== src/Go/Json/Decode.antt =====
-- `json.Unmarshal` from a JSON value into a Go value that is already there: a missing key or `null`
-- leaves it as it is, a value of another type is an error that is kept while the rest is decoded.
use Prim.Native.Char.{code}
use Prim.Native.String.{[], ◌∷◌}
use oauth2_token_exchange.Common.{
  ℕ, ◌-◌, String, ◌<>◌, Bool, true, false, ◌&&◌, Option, none, some, List, leb, eqb, ◌==◌,
  if◌then◌else◌,
}
use oauth2_token_exchange.Common.Int.{ℤ, in_int64, in_uint64, pos_part}
use oauth2_token_exchange.Go.Format.{decimal_ℤ}
use oauth2_token_exchange.Go.Errors.{GoError, message, Result, ok, err}
use oauth2_token_exchange.Go.Json.{
  Json, JsonText, null, bool, number, fraction, text, array, object, Items, nil, item, Members, end,
  member,
}

abbrev pub Decoder : Type 0 → Type 0
Decoder A = Json → A → A × Option GoError

-- How `json.UnmarshalTypeError` names the kind of a value.
abbrev kind : Json → String
kind null = "null"
kind (bool b) = "bool"
kind (number n) = "number"
kind (fraction literal) = "number"
kind (text s) = "string"
kind (array items) = "array"
kind (object members) = "object"

-- `place` is "Go struct field T.name" or "Go value".
abbrev pub type_error : String → String → Json → GoError
type_error place type v =
    message ("json: cannot unmarshal " <> kind v <> " into " <> place <> " of type " <> type)

abbrev pub earlier : Option GoError → Option GoError → Option GoError
earlier none e = e
earlier (some d) e = some d

abbrev pub into_text : String → Decoder String
into_text place null s = (s, none)
into_text place (text t) s = (t, none)
into_text place v s = (s, some (type_error place "string" v))

abbrev pub into_bool : String → Decoder Bool
into_bool place null b = (b, none)
into_bool place (bool c) b = (c, none)
into_bool place v b = (b, some (type_error place "bool" v))

abbrev pub into_int64 : String → Decoder ℤ
into_int64 place null n = (n, none)
into_int64 place (number m) n = if in_int64 m then (m, none) else (
  n,
  some (
      message
        ("json: cannot unmarshal number " <> decimal_ℤ m <> " into " <> place <> " of type int64")),
)
into_int64 place (fraction literal) n = (
  n,
  some (
      message
        ("json: cannot unmarshal number " <> literal <> " into " <> place <> " of type int64")),
)
into_int64 place v n = (n, some (type_error place "int64" v))

abbrev pub into_uint64 : String → Decoder ℕ
into_uint64 place null n = (n, none)
into_uint64 place (number m) n = if in_uint64 m then (pos_part m, none) else (
  n,
  some (
      message (
        "json: cannot unmarshal number " <> decimal_ℤ m <> " into " <> place <> " of type uint64")),
)
into_uint64 place (fraction literal) n = (
  n,
  some (
      message
        ("json: cannot unmarshal number " <> literal <> " into " <> place <> " of type uint64")),
)
into_uint64 place v n = (n, some (type_error place "uint64" v))

module _ {A : Type 0} (zero_value : A) (decode : Decoder A) where
  -- A pointer: `null` makes it nil, anything else fills what it points to, allocated if need be.
  abbrev pub into_pointer : Decoder (Option A)
  into_pointer null p = (none, none)
  into_pointer v none = let (a, e) = decode v zero_value in (some a, e)
  into_pointer v (some a) = let (b, e) = decode v a in (some b, e)

  unfoldable pub into_items : Items → List A × Option GoError
  into_items nil = (List.[], none)
  into_items (item v rest) =
      let (a, e) = decode v zero_value in
      let (as', f) = into_items rest in (List.◌∷◌ a as', earlier e f)

  -- A slice: `null` makes it nil, an array replaces its elements.
  unfoldable pub into_list : String → String → Decoder (List A)
  unfolding into_items
  into_list place type null xs = (List.[], none)
  into_list place type (array items) xs = into_items items
  into_list place type v xs = (xs, some (type_error place type v))

-- A field of a struct: its JSON name and how a value is stored in it.
pub record Field (S : Type 0) : Type 0 where
  pub name : String
  pub store : Decoder S

-- The field that is read by `get` and written by `put`.
abbrev pub field : {S A : Type 0} → String → Decoder A → (S → A) → (A → S → S) → Field S
field key decode get put = record {
  name = key;
  store = λ v s. let (a, e) = decode v (get s) in (put a s, e);
}

-- Keys are compared without regard to case: the letters, and the two other characters that fold to
-- one of them (the long s and the Kelvin sign).
abbrev fold_char : ℕ → ℕ
fold_char c =
    if leb b'a' c && leb c b'z'
    then c - 32
    else if eqb c 0x17F
    then b'S'
    else if eqb c 0x212A
    then b'K'
    else c

fold_equal : String → String → Bool
fold_equal [] [] = true
fold_equal [] (d ∷ t) = false
fold_equal (c ∷ s) [] = false
fold_equal (c ∷ s) (d ∷ t) = eqb (fold_char (code c)) (fold_char (code d)) && fold_equal s t

module _ {S : Type 0} where
  find_by : (String → Bool) → List (Field S) → Option (Field S)
  find_by test List.[] = none
  find_by test (List.◌∷◌ f fs) = if test f.name then some f else find_by test fs

  -- The field of a key: by its exact name, else without regard to case.
  pub find_field : String → List (Field S) → Option (Field S)
  unfolding find_by fold_equal
  find_field key fs = elim (find_by (λ n. n == key) fs) [
    | some f ↦ some f
    | none ↦ find_by (λ n. fold_equal n key) fs
  ]

  -- An unknown key is skipped.
  abbrev store_member : Option (Field S) → Json → S → S × Option GoError
  store_member none v s = (s, none)
  store_member (some f) v s = f.store v s

  pub into_members : List (Field S) → Members → S → Option GoError → S × Option GoError
  unfolding find_field
  into_members fs end s e = (s, e)
  into_members fs (member key v rest) s e =
      let (s', f) = store_member (find_field key fs) v s in into_members fs rest s' (earlier e f)

  -- A struct whose Go type is written `type`
  unfoldable pub into_struct : String → List (Field S) → Decoder S
  unfolding into_members
  into_struct type fs null s = (s, none)
  into_struct type fs (object members) s = into_members fs members s none
  into_struct type fs v s = (s, some (type_error "Go value" type v))

-- `json.Unmarshal(v, &a)` for an `a` that is fresh
abbrev outcome : {A : Type 0} → A × Option GoError → Result A
outcome (a, none) = ok a
outcome (a, some e) = err e

abbrev pub unmarshal : {A : Type 0} → Decoder A → A → Json → Result A
unmarshal decode zero_value v = outcome (decode v zero_value)

abbrev pub unmarshal_parsed : {A : Type 0} → Decoder A → A → Result Json → Result A
unmarshal_parsed decode zero_value (ok v) = unmarshal decode zero_value v
unmarshal_parsed decode zero_value (err e) = err e

-- `json.Unmarshal(bytes, &a)` for an `a` that is fresh
abbrev pub unmarshal_bytes : {A : Type 0} → JsonText → Decoder A → A → List ℕ → Result A
unmarshal_bytes json decode zero_value bytes = unmarshal_parsed decode zero_value (json.parse bytes)
