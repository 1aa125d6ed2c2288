-- ===== src/Json.antt =====
-- JSON values as internal/jsonutil decodes them: numbers stay literals (json.Number), and a raw
-- message is its byte length with what jsonutil.Decode makes of it.
pub mod Number
use Number.{decimal_digits}
use epoch.Base.{ℕ, String, Bool, true, false, Option, none, some, ℤ, pos}

-- `[]any` and `map[string]any` are the lists of the block.
mutual
  pub data Json : Type 0 where
    null : Json
    bool : Bool → Json
    str : String → Json
    num : String → Json
    arr : Items → Json
    obj : Fields → Json

  pub data Items : Type 0 where
    nil : Items
    cons : Json → Items → Items

  pub data Fields : Type 0 where
    end : Fields
    field : String → Json → Fields → Fields

-- json.RawMessage: `decoded` is `none` where jsonutil.Decode returns an error.
pub record Raw : Type 0 where
  pub size : ℕ
  pub decoded : Option Json

-- json.Unmarshal into an int64 that is 0 before: `null` leaves it, a literal is read by ParseInt.
unfoldable pub unmarshal_int64 : Raw → Option ℤ
unmarshal_int64 r = elim r.decoded [
  | some null ↦ some (pos 0)
  | some (num literal) ↦ Number.parse_int 64 literal
  | _ ↦ none
]
