-- ===== src/Json.antt =====
-- The values of the language as `JSON.parse` gives them. The text behind them is not modelled.
use hydra_umc_server.Prelude.{
  ℕ, String, Option, none, some, Bool, List, [], ◌∷◌, string_discrete, ite,
}

-- A number is a whole number from 0 up, or another one, kept as its text.
pub data Number : Type 0 where
  whole : ℕ → Number
  other : String → Number

mutual
  pub data Json : Type 0 where
    null : Json
    bool : Bool → Json
    num : Number → Json
    str : String → Json
    arr : Items → Json
    obj : Fields → Json

  pub data Items : Type 0 where
    nil : Items
    cons : Json → Items → Items

  pub data Fields : Type 0 where
    end : Fields
    field : String → Json → Fields → Fields

abbrev pub items : Items → List Json
items nil = []
items (cons v vs) = v ∷ items vs

unfoldable pub field_of : String → Fields → Option Json
field_of name end = none
field_of name (field k v fs) = ite (string_discrete name k) (some v) (field_of name fs)

-- `value.name`, where the value may be anything: `none` is `undefined`.
unfoldable pub get : String → Json → Option Json
unfolding field_of
get name (obj fs) = field_of name fs
get name _ = none

abbrev pub as_string : Option Json → Option String
as_string (some (str s)) = some s
as_string _ = none

-- A whole number from 0 up: `Number.isInteger(v) && v >= 0`.
abbrev pub as_whole : Option Json → Option ℕ
as_whole (some (num (whole n))) = some n
as_whole _ = none

abbrev pub as_number : Option Json → Option Number
as_number (some (num n)) = some n
as_number _ = none

abbrev pub as_array : Option Json → Option (List Json)
as_array (some (arr vs)) = some (items vs)
as_array _ = none
