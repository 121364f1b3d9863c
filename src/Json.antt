-- ===== src/Json.antt =====
-- `serde_json::Value` as far as the code reads it: a number is kept as the text it prints as, and an
-- object as its fields in order.
pub mod Access
use txodds_agent_desk.Prelude.{Bool}
use txodds_agent_desk.Text.{Text}

mutual
  pub data Value : Type 0 where
    null : Value
    bool : Bool → Value
    number : Text → Value
    string : Text → Value
    array : Items → Value
    object : Fields → Value

  pub data Items : Type 0 where
    nil : Items
    cons : Value → Items → Items

  pub data Fields : Type 0 where
    end : Fields
    field : Text → Value → Fields → Fields
