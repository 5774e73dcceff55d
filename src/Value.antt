-- ===== src/Value.antt =====
-- Values of Python's `Any` in metadata and filters, as JSON has them. Floats are left out.
use lbpr.Prelude.{String, Bool}
use lbpr.Prelude.Int.{ℤ}

mutual
  pub data Value : Type 0 where
    null : Value
    bool : Bool → Value
    int : ℤ → Value
    text : String → Value
    list : Items → Value
    dict : Fields → Value

  pub data Items : Type 0 where
    nil : Items
    cons : Value → Items → Items

  pub data Fields : Type 0 where
    end : Fields
    field : String → Value → Fields → Fields
