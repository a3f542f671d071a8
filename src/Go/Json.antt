-- ===== src/Go/Json.antt =====
-- JSON values, and how `encoding/json` converts them to Go values of a known type. The text of a
-- value is left to an interface: `JsonText`.
pub mod Decode
use oauth2_token_exchange.Common.Int.{ℤ}
use oauth2_token_exchange.Common.{ℕ, String, Bool, List}
use oauth2_token_exchange.Go.Errors.{Result}

-- `number` is an integer literal; any other number is `fraction` with its literal.
mutual
  pub data Json : Type 0 where
    null : Json
    bool : Bool → Json
    number : ℤ → Json
    fraction : String → Json
    text : String → Json
    array : Items → Json
    object : Members → Json

  pub data Items : Type 0 where
    nil : Items
    item : Json → Items → Items

  pub data Members : Type 0 where
    end : Members
    member : String → Json → Members → Members

-- The bytes that `json.Marshal` writes for a value, and the value that `json.Unmarshal` reads from
-- bytes, or its syntax error.
pub record JsonText : Type 0 where
  pub print : Json → List ℕ
  pub parse : List ℕ → Result Json
