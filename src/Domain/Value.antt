-- ===== src/Domain/Value.antt =====
-- JSON values: the metadata that a caller attaches to a document, and the payload of a cursor.
use dms_core.Prelude.{Text, Bool, ℤ}

mutual
  pub data Value : Type 0 where
    null : Value
    boolean : Bool → Value
    int : ℤ → Value
    -- A number with a fraction, by its text.
    float : Text → Value
    str : Text → Value
    arr : Items → Value
    obj : Fields → Value

  pub data Items : Type 0 where
    nil : Items
    cons : Value → Items → Items

  pub data Fields : Type 0 where
    end : Fields
    field : Text → Value → Fields → Fields
