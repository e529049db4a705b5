-- ===== src/Roster/Trees.antt =====
-- JSON trees, as an instance of what main/beacon_config.c uses of cJSON; for the examples.
use van_child_safety.Base.{
  ◌≡◌, refl, ap, Bool, true, false, not, Option, none, some, List, [], ◌∷◌, Bool-cases, inl, inr,
  if◌then◌else◌,
}
use van_child_safety.Base.Int.{ℤ}
use van_child_safety.Base.Text.{Text, codes, same_id}
use van_child_safety.Roster.Json.{Cjson}
use van_child_safety.Roster.Readback.{first_member, CjsonLaws}

mutual
  pub data Json : Type 0 where
    null : Json
    string : Text → Json
    number : ℤ → Json
    boolean : Bool → Json
    array : Items → Json
    object : Fields → Json

  pub data Items : Type 0 where
    nil : Items
    cons : Json → Items → Items

  pub data Fields : Type 0 where
    end : Fields
    field : Text → Json → Fields → Fields

abbrev to_items : List Json → Items
to_items [] = nil
to_items (x ∷ xs) = cons x (to_items xs)

abbrev from_items : Items → List Json
from_items nil = []
from_items (cons x xs) = x ∷ from_items xs

abbrev pub to_fields : List (Text × Json) → Fields
to_fields [] = end
to_fields ((k, v) ∷ fs) = field k v (to_fields fs)

abbrev find_field : Text → Fields → Option Json
find_field key end = none
find_field key (field k v fs) = if same_id k key then some v else find_field key fs

abbrev item_of : Json → Text → Option Json
item_of (object fs) key = find_field key fs
item_of _ key = none

abbrev string_of : Json → Option Text
string_of (string s) = some s
string_of _ = none

abbrev int_of : Json → Option ℤ
int_of (number n) = some n
int_of _ = none

abbrev elements_of : Json → Option (List Json)
elements_of (array xs) = some (from_items xs)
elements_of _ = none

abbrev is_true_tree : Json → Bool
is_true_tree (boolean b) = b
is_true_tree _ = false

abbrev is_false_tree : Json → Bool
is_false_tree (boolean b) = not b
is_false_tree _ = false

abbrev is_object_tree : Json → Bool
is_object_tree (object _) = true
is_object_tree _ = false

-- Every text parses to one tree, and every tree is printed as one text.
abbrev pub trees : Json → Cjson
trees document = record {
  Item = Json;
  parse = λ _. some document;
  print = λ _. some (codes "{}");
  get_item = item_of;
  string_value = string_of;
  int_value = int_of;
  elements = elements_of;
  is_true = is_true_tree;
  is_false = is_false_tree;
  is_object = is_object_tree;
  object = λ fs. object (to_fields fs);
  array = λ xs. array (to_items xs);
  string = string;
  number = number;
  boolean = boolean;
}

from_items-to_items : (xs : List Json) → from_items (to_items xs) ≡ xs
from_items-to_items [] = refl
from_items-to_items (x ∷ xs) = ap (◌∷◌ x) (from_items-to_items xs)

find_field-to_fields :
    (key : Text) (fs : List (Text × Json)) → find_field key (to_fields fs) ≡ first_member key fs
find_field-to_fields key [] = refl
find_field-to_fields key ((k, v) ∷ fs) = elim (Bool-cases (same_id k key)) [
  | inl e ↦ rw e refl
  | inr e ↦ rw e (find_field-to_fields key fs)
]

pub trees-CjsonLaws : (document : Json) → CjsonLaws (trees document)
trees-CjsonLaws document = record {
  get_item-object = λ fs key. find_field-to_fields key fs;
  elements-array = λ xs. ap some (from_items-to_items xs);
  string_value-string = λ s. refl;
  int_value-word = λ n h. refl;
  int_value-small = λ n h. refl;
  is_object-object = λ fs. refl;
  is_false-boolean = λ b. refl;
}
