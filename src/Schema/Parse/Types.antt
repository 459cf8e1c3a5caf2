-- ===== src/Schema/Parse/Types.antt =====
-- schema/parse.go: the kinds and types of properties, and typeDef.
pub mod Printed
pub mod Definition
use tfexplorer.Base.{
  ℕ, zero, suc, Bool, true, false, ◌&&◌, Option, none, some, List, [], ◌∷◌, ◌++◌, length, ◌==◌,
  if◌then◌else◌,
}
use tfexplorer.Base.Text.{Text, codes, text_eq}
use tfexplorer.Schema.Parse.Lexis.{◌>>=◌, is_upper, is_lower, span, after, trim_space, find_type}

pub data Kind : Type 0 where
  unknown_kind integer_kind float_kind bool_kind string_kind mobile_kind email_kind : Kind
  ip_port_kind ip_address_kind ip_range_kind date_kind date_time_kind numeric_kind guid_kind : Kind
  dict_kind list_kind object_kind yaml_kind multiline_kind hash_kind bytes_kind percent_kind : Kind
  url_kind enum_kind : Kind

abbrev pub number_of : Kind → ℕ
number_of unknown_kind = 0
number_of integer_kind = 1
number_of float_kind = 2
number_of bool_kind = 3
number_of string_kind = 4
number_of mobile_kind = 5
number_of email_kind = 6
number_of ip_port_kind = 7
number_of ip_address_kind = 8
number_of ip_range_kind = 9
number_of date_kind = 10
number_of date_time_kind = 11
number_of numeric_kind = 12
number_of guid_kind = 13
number_of dict_kind = 14
number_of list_kind = 15
number_of object_kind = 16
number_of yaml_kind = 17
number_of multiline_kind = 18
number_of hash_kind = 19
number_of bytes_kind = 20
number_of percent_kind = 21
number_of url_kind = 22
number_of enum_kind = 23

unfoldable pub is_kind : Kind → Kind → Bool
is_kind k l = number_of k == number_of l

-- A Type; the second constructor has an element.
pub data TypeDef : Type 0 where
  plain : Kind → Text → Text → TypeDef
  of_element : Kind → Text → Text → TypeDef → TypeDef

abbrev pub kind_of : TypeDef → Kind
kind_of (plain k def ref) = k
kind_of (of_element k def ref t) = k

abbrev pub default_of : TypeDef → Text
default_of (plain k def ref) = def
default_of (of_element k def ref t) = def

abbrev pub reference_of : TypeDef → Text
reference_of (plain k def ref) = ref
reference_of (of_element k def ref t) = ref

-- The zero value.
abbrev pub unknown_type : TypeDef
unknown_type = plain unknown_kind [] []

abbrev pub symbols : List (Text × Kind)
symbols =
    (codes "S", string_kind)
    ∷ (codes "I", integer_kind)
    ∷ (codes "F", float_kind)
    ∷ (codes "B", bool_kind)
    ∷ (codes "D", date_kind)
    ∷ (codes "T", date_time_kind)
    ∷ (codes "N", numeric_kind)
    ∷ (codes "L", list_kind)
    ∷ (codes "O", object_kind)
    ∷ (codes "P", percent_kind)
    ∷ (codes "U", url_kind)
    ∷ (codes "H", hash_kind)
    ∷ (codes "E", enum_kind)
    ∷ (codes "M", dict_kind)
    ∷ (codes "str", string_kind)
    ∷ (codes "string", string_kind)
    ∷ (codes "int", integer_kind)
    ∷ (codes "integer", integer_kind)
    ∷ (codes "float", float_kind)
    ∷ (codes "bool", bool_kind)
    ∷ (codes "mobile", mobile_kind)
    ∷ (codes "email", email_kind)
    ∷ (codes "ipport", ip_port_kind)
    ∷ (codes "ipaddr", ip_address_kind)
    ∷ (codes "ipaddress", ip_address_kind)
    ∷ (codes "iprange", ip_range_kind)
    ∷ (codes "date", date_kind)
    ∷ (codes "time", date_time_kind)
    ∷ (codes "numeric", numeric_kind)
    ∷ (codes "guid", guid_kind)
    ∷ (codes "dict", dict_kind)
    ∷ (codes "map", dict_kind)
    ∷ (codes "yaml", yaml_kind)
    ∷ (codes "multiline", multiline_kind)
    ∷ (codes "hash", hash_kind)
    ∷ (codes "bin", bytes_kind)
    ∷ (codes "bytes", bytes_kind)
    ∷ (codes "percent", percent_kind)
    ∷ (codes "url", url_kind)
    ∷ (codes "object", object_kind)
    ∷ (codes "enum", enum_kind)
    ∷ []

-- A symbol of the map `symbols`.
unfoldable pub look_up : List (Text × Kind) → Text → Option Kind
unfolding text_eq
look_up [] symbol = none
look_up ((s, k) ∷ rest) symbol = if text_eq s symbol then some k else look_up rest symbol

-- tokenSplit: an upper case letter, or the lower case letters in front, and the rest. In front of
-- any other character the token is empty, and so no symbol; a byte beyond ASCII, which tokenSplit
-- takes for a Latin-1 letter, makes no symbol either.
unfoldable pub token_split : Text → Text × Text
unfolding span after
token_split [] = ([], [])
token_split (c ∷ s) =
    if is_upper c then (c ∷ [], s) else (span is_lower (c ∷ s), after is_lower (c ∷ s))

-- The kinds of the tokens; a token that is a symbol has a character, so that the length of the text
-- is fuel enough.
unfoldable pub read_kinds : ℕ → Text → Option (List Kind)
unfolding token_split look_up
read_kinds fuel [] = some []
read_kinds zero (c ∷ s) = none
read_kinds (suc fuel) (c ∷ s) = do
  kind ← look_up symbols (token_split (c ∷ s)).0
  rest ← read_kinds fuel (token_split (c ∷ s)).1
  some (kind ∷ rest)

abbrev pub object_reference : Kind → Text → Text
object_reference object_kind reference = reference
object_reference k reference = []

-- The types that the loop of typeDef nests.
unfoldable pub nest : Text → Text → List Kind → TypeDef
nest def reference [] = plain unknown_kind def []
nest def reference (k ∷ []) = plain k def (object_reference k reference)
nest def reference (k ∷ l ∷ ks) =
    of_element k def (object_reference k reference) (nest [] reference (l ∷ ks))

unfoldable pub type_def : Text → Option TypeDef
unfolding find_type trim_space read_kinds nest
type_def def = do
  (value, type_str, mark) ← find_type def
  kinds ← read_kinds (length type_str) type_str
  some (nest (trim_space value) (trim_space mark) kinds)
