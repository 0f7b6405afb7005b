-- ===== src/Json.antt =====
-- What Python's `json.loads` gives, in the order of the document. A number is its literal.
use harbormaster.Prelude.{
  Bool, true, false, Option, none, some, List, [], ◌∷◌, String, string_eq, ◌==◌, if◌then◌else◌,
}

mutual
  pub data Json : Type 0 where
    null : Json
    truth : Bool → Json
    number : String → Json
    text : String → Json
    array : Items → Json
    object : Fields → Json

  pub data Items : Type 0 where
    no_items : Items
    item : Json → Items → Items

  pub data Fields : Type 0 where
    no_fields : Fields
    field : String → Json → Fields → Fields

abbrev pub items_of : Items → List Json
items_of no_items = []
items_of (item j is) = j ∷ items_of is

abbrev pub fields_of : Fields → List (String × Json)
fields_of no_fields = []
fields_of (field k j fs) = (k, j) ∷ fields_of fs

-- `d.get(key)`
unfoldable pub get : String → Fields → Option Json
get key no_fields = none
get key (field k j fs) = if key == k then some j else get key fs

-- `str(value)` of a scalar, and of the rest by a parameter
abbrev pub str : (Json → String) → Json → String
str shown null = "None"
str shown (truth true) = "True"
str shown (truth false) = "False"
str shown (text s) = s
str shown (number s) = shown (number s)
str shown (array is) = shown (array is)
str shown (object fs) = shown (object fs)
