-- ===== src/Lobby/Sample.antt =====
-- A few concrete JSON values for the tests; numbers stand for floats.
use libov.Prelude.{ℕ, Bool, true, false, Option, none, some, List, [], ◌∷◌}
use libov.Message.{Bytes}
use libov.Lobby.Key.{Name}
use libov.Lobby.{JsonApi}

-- An object gives a value for each name, nothing where it has no such member; an array is its first
-- element and the rest.
pub data Json : Type 0 where
  nothing ends : Json
  number : ℕ → Json
  text : Bytes → Json
  truth : Bool → Json
  item : Json → Json → Json
  object : (Name → Json) → Json

abbrev pub is_object : Json → Bool
is_object (object f) = true
is_object _ = false

abbrev pub is_array : Json → Bool
is_array ends = true
is_array (item j js) = true
is_array _ = false

abbrev pub is_null : Json → Bool
is_null nothing = true
is_null _ = false

abbrev pub is_string : Json → Bool
is_string (text s) = true
is_string _ = false

abbrev pub is_number : Json → Bool
is_number (number n) = true
is_number _ = false

abbrev pub member : Json → Name → Option Json
member nothing k = some nothing
member (object f) k = some (f k)
member _ k = none

abbrev pub elements : Json → List Json
elements (item j js) = j ∷ elements js
elements _ = []

abbrev pub entries : Json → Option (List (Bytes × Json))
entries nothing = some []
entries _ = none

abbrev pub is_boolean : Json → Bool
is_boolean (truth b) = true
is_boolean _ = false

abbrev pub get_bool : Json → Bool
get_bool (truth b) = b
get_bool _ = false

abbrev pub get_string : Json → Bytes
get_string (text s) = s
get_string _ = []

abbrev pub get_int : Json → ℕ
get_int (number n) = n
get_int _ = 0

abbrev pub text_or : Bytes → Option Json → Option Bytes
text_or default (some nothing) = some default
text_or default (some (text s)) = some s
text_or default _ = none

abbrev pub number_or : ℕ → Option Json → Option ℕ
number_or default (some nothing) = some default
number_or default (some (number n)) = some n
number_or default _ = none

abbrev pub truth_or : Bool → Option Json → Option Bool
truth_or default (some nothing) = some default
truth_or default (some (truth b)) = some b
truth_or default _ = none

abbrev pub json : JsonApi Json ℕ
json = record {
  is_object = is_object;
  is_array = is_array;
  is_null = is_null;
  is_string = is_string;
  is_number = is_number;
  is_boolean = is_boolean;
  member = member;
  value_string = λ j k default. text_or default (member j k);
  value_bool = λ j k default. truth_or default (member j k);
  value_real = λ j k default. number_or default (member j k);
  value_int = λ j k default. number_or default (member j k);
  value_ints = λ j k default. some default;
  elements = elements;
  entries = entries;
  get_string = get_string;
  get_int = get_int;
  get_bool = get_bool;
  number_text = λ j. [];
}
