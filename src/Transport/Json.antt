-- ===== src/Transport/Json.antt =====
-- The documents of the broker: what `json.loads` returns, with the look-ups of a dictionary.
use bot_trading.Prelude.{String, Bool, Option, none, some, List, [], ◌∷◌, str_eq, if◌then◌else◌}
use bot_trading.Prelude.Int.{ℤ}
use bot_trading.Decimal.{Decimals, Decimal}

module _ ⦃dec : Decimals⦄ where
  mutual
    pub data Json : Type 0 where
      null : Json
      boolean : Bool → Json
      integer : ℤ → Json
      decimal : Decimal → Json
      text : String → Json
      array : Elements → Json
      object : Fields → Json

    pub data Elements : Type 0 where
      empty : Elements
      element : Json → Elements → Elements

    pub data Fields : Type 0 where
      no_field : Fields
      field : String → Json → Fields → Fields

  -- `document.get(key)`
  abbrev pub get : String → Fields → Option Json
  get key no_field = none
  get key (field name value rest) =
      let later = get key rest in if str_eq name key then some value else later

  abbrev pub elements : Elements → List Json
  elements empty = []
  elements (element x rest) = x ∷ elements rest
