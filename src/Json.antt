-- ===== src/Json.antt =====
-- Values of Python's `dict[str, object]` payloads and JSONB columns, and the standard library's
-- codec of them, which is a parameter.
use competitor_scout.Prelude.{String, Bool, Option}

-- A key of a dict: a text, or any other hashable value.
pub data Key : Type 0 where
  text_key : String → Key
  other_key : Key

-- `number` holds the numeral of an int or a float; `other` stands for every value that is no
-- bool, int, float, str, list, dict or None.
mutual
  pub data Value : Type 0 where
    null : Value
    bool : Bool → Value
    number : String → Value
    text : String → Value
    array : Items → Value
    object : Fields → Value
    other : Value

  pub data Items : Type 0 where
    nil : Items
    cons : Value → Items → Items

  pub data Fields : Type 0 where
    end : Fields
    field : Key → Value → Fields → Fields

-- `json.dumps(value, allow_nan=False)` and `json.loads`; `none` is a TypeError or a ValueError.
pub record JsonLib : Type 0 where
  pub dumps : Value → Option String
  pub loads : String → Option Value
