-- ===== src/Amf0/Value.antt =====
-- amf0/src/lib.rs and errors.rs: the values. An f64 is its pattern of 64 bits, a String its UTF-8
-- bytes, and a HashMap the list of its entries in the order of its iteration.
use rust_media_libs.Prelude.{ℕ, suc, Bool, Option, none, some, List, bytes_eq, if◌then◌else◌}

mutual
  pub data Value : Type 0 where
    number : ℕ → Value
    boolean : Bool → Value
    utf8_string : List ℕ → Value
    object : Properties → Value
    strict_array : Values → Value
    null undefined : Value

  pub data Values : Type 0 where
    nil : Values
    cons : Value → Values → Values

  pub data Properties : Type 0 where
    end : Properties
    property : List ℕ → Value → Properties → Properties

pub data Amf0DeserializationError : Type 0 where
  unknown_marker : ℕ → Amf0DeserializationError
  unexpected_empty_object_property_name unexpected_eof : Amf0DeserializationError
  buffer_read_error string_parse_error : Amf0DeserializationError

pub data Amf0SerializationError : Type 0 where
  normal_string_too_long : Amf0SerializationError

abbrev pub number_marker : ℕ
number_marker = 0

abbrev pub boolean_marker : ℕ
boolean_marker = 1

abbrev pub string_marker : ℕ
string_marker = 2

abbrev pub object_marker : ℕ
object_marker = 3

abbrev pub null_marker : ℕ
null_marker = 5

abbrev pub undefined_marker : ℕ
undefined_marker = 6

abbrev pub ecma_array_marker : ℕ
ecma_array_marker = 8

abbrev pub object_end_marker : ℕ
object_end_marker = 9

abbrev pub strict_array_marker : ℕ
strict_array_marker = 10

abbrev pub utf_8_empty_marker : ℕ
utf_8_empty_marker = 0

-- The accessors of `impl Amf0Value`.
unfoldable pub get_number : Value → Option ℕ
get_number (number value) = some value
get_number _ = none

unfoldable pub get_boolean : Value → Option Bool
get_boolean (boolean value) = some value
get_boolean _ = none

unfoldable pub get_string : Value → Option (List ℕ)
get_string (utf8_string value) = some value
get_string _ = none

unfoldable pub get_object_properties : Value → Option Properties
get_object_properties (object properties) = some properties
get_object_properties _ = none

abbrev pub length_values : Values → ℕ
length_values nil = 0
length_values (cons v vs) = suc (length_values vs)

-- `HashMap::insert`; a new entry goes to the end.
unfoldable pub insert : List ℕ → Value → Properties → Properties
insert name value end = property name value end
insert name value (property other w ps) =
    if bytes_eq other name then property name value ps else property other w (insert name value ps)

-- `HashMap::get`.
unfoldable pub lookup : List ℕ → Properties → Option Value
lookup name end = none
lookup name (property other w ps) = if bytes_eq other name then some w else lookup name ps

-- What `HashMap::remove` leaves.
unfoldable pub remove : List ℕ → Properties → Properties
remove name end = end
remove name (property other w ps) =
    let rest = remove name ps in if bytes_eq other name then rest else property other w rest
