-- ===== src/Nvm/Values.antt =====
-- The values that the simulated memory of sim/nvm.py holds: JSON's, and bytes. Numbers are
-- natural: the code stores counters, versions and lengths.
use sec_oc.Base.{ℕ, String, Bool, true, false, Outcome, ok, raised, type_error}
use sec_oc.Base.Bytes.{Bytes}

mutual
  pub data Value : Type 0 where
    null : Value
    boolean : Bool → Value
    integer : ℕ → Value
    text : String → Value
    blob : Bytes → Value
    array : Items → Value
    object : Fields → Value

  pub data Items : Type 0 where
    nil : Items
    cons : Value → Items → Items

  pub data Fields : Type 0 where
    end : Fields
    field : String → Value → Fields → Fields

-- A value where the code computes with a number. Python's `True` is 1; what is no number raises.
abbrev pub as_int : Value → Outcome ℕ
as_int (integer n) = ok n
as_int (boolean true) = ok 1
as_int (boolean false) = ok 0
as_int null = raised type_error
as_int (text s) = raised type_error
as_int (blob b) = raised type_error
as_int (array xs) = raised type_error
as_int (object fs) = raised type_error
