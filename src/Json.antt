-- ===== src/Json.antt =====
-- The JSON values that model messages and tool arguments are made of. Keys stay native strings.
-- A `float` is a finite one, which the program never looks into, or one that JSON does not have; a
-- value that is no JSON at all is known by its type's name.
use coding_agent_neo.Prelude.{
  String, str_eq, Bool, Option, none, some, List, [], ◌∷◌, if◌then◌else◌, Text,
}
use coding_agent_neo.Prelude.Int.{ℤ}

pub data Real : Type 0 where
  finite : Text → Real
  nan : Real
  infinite : (negative : Bool) → Real

mutual
  pub data Value : Type 0 where
    null : Value
    bool : Bool → Value
    num : ℤ → Value
    real : Real → Value
    foreign_value : (type_name : Text) → Value
    str : Text → Value
    arr : Items → Value
    obj : Fields → Value

  pub data Fields : Type 0 where
    end : Fields
    field : String → Value → Fields → Fields

  pub data Items : Type 0 where
    nil : Items
    cons : Value → Items → Items

-- mapping.get(key)
unfoldable pub get : String → Fields → Option Value
get k end = none
get k (field j v fs) = if str_eq j k then some v else get k fs

abbrev pub values : Items → List Value
values nil = []
values (cons v vs) = v ∷ values vs

abbrev pub array : List Value → Items
array [] = nil
array (v ∷ vs) = cons v (array vs)
