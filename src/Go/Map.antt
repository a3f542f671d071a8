-- ===== src/Go/Map.antt =====
-- Go's `map[string]string`. Its iteration order is not part of the value: what a program reads by
-- key is `lookup` and `get`.
use oauth2_token_exchange.Common.{
  ◌≡◌, refl, String, Option, none, some, List, [], ◌∷◌, arith, ◌==◌, eq_iff, if◌then◌else◌,
}

abbrev pub StringMap : Type 0
StringMap = List (String × String)

-- `value, ok := m[key]`
unfoldable pub lookup : String → StringMap → Option String
lookup key [] = none
lookup key ((name, value) ∷ rest) = if name == key then some value else lookup key rest

-- `m[key]`: the empty text where the key is missing
unfoldable pub get : StringMap → String → String
unfolding lookup
get m key = elim (lookup key m) [ none ↦ "" | some value ↦ value ]

-- `m[key] = value`
unfoldable pub insert : String → String → StringMap → StringMap
insert key value [] = (key, value) ∷ []
insert key value ((name, old) ∷ rest) =
    let rest' = insert key value rest in
    if name == key then (name, value) ∷ rest else (name, old) ∷ rest'

pub lookup-insert :
    (asked key value : String) (m : StringMap)
    → lookup asked (insert key value m) ≡ (if key == asked then some value else lookup asked m)
unfolding lookup insert
lookup-insert asked key value [] = refl
lookup-insert asked key value ((name, old) ∷ rest) = ground (
  arith,
  lookup-insert asked key value rest,
  eq_iff name key,
  eq_iff key asked,
  eq_iff name asked,
)

-- `delete(m, key)`
unfoldable pub delete : String → StringMap → StringMap
delete key [] = []
delete key ((name, value) ∷ rest) =
    let rest' = delete key rest in if name == key then rest' else (name, value) ∷ rest'
