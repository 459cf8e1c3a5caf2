-- ===== src/Examples/Schemas.antt =====
-- Schema texts at concrete inputs.
use tfexplorer.Base.{some, true, false, List, [], ◌∷◌, ◌++◌, ◌≡◌, ◌↔◌, refl, here, there}
use tfexplorer.Base.Text.{Text, codes, text_eq}
use tfexplorer.Program.{done}
use tfexplorer.Schema.Parse.Lexis.{
  trim_space, trim, span, after, before_end, to_lower, match_value, match_assignment,
  find_directive, find_property, find_type,
}
use tfexplorer.Schema.Parse.Types.{
  integer_kind, list_kind, object_kind, string_kind, is_kind, TypeDef, plain, of_element,
  unknown_type, look_up, token_split, read_kinds, nest, type_def,
}
use tfexplorer.Schema.Parse.Types.Definition.{IsDefinition, type_def-IsDefinition}
use tfexplorer.Schema.Parse.{
  Object, directive, property, on_directive, on_property, on_line, scan_lines, ref_of,
  is_referenced, mark_root, new_schema,
}
use tfexplorer.Schema.Parse.Roots.{IsMarked, new_schema-IsMarked}
use tfexplorer.Schema.Parse.Defaults.{
  list_default, is_skipped, entry, write_defaults, default_json, entries, joined,
  default_json-joined,
}

abbrev farm_lines : List Text
farm_lines =
    codes "@url = farm"
    ∷ codes "# its nodes"
    ∷ codes "name* = 'x' (S)"
    ∷ codes "nodes = (LO) !node"
    ∷ codes " @url = node"
    ∷ codes "ports = '1, 2' (LI)"
    ∷ codes "weird = 7 (X)"
    ∷ []

abbrev list_of_numbers : TypeDef
list_of_numbers = of_element list_kind (codes "'1, 2'") [] (plain integer_kind [] [])

-- The type X is unknown, but the property is kept without its type.
abbrev node_object : Object
node_object = record {
  url = codes "node";
  is_root = false;
  directives = [];
  properties =
      record { name = codes "ports"; indexed = false; typ = list_of_numbers }
      ∷ record { name = codes "weird"; indexed = false; typ = unknown_type }
      ∷ [];
}

abbrev farm_object : Object
farm_object = record {
  url = codes "farm";
  is_root = true;
  directives = [];
  properties =
      record { name = codes "name"; indexed = true; typ = plain string_kind (codes "'x'") [] }
      ∷ record {
        name = codes "nodes";
        indexed = false;
        typ = of_element list_kind [] [] (plain object_kind [] (codes "node"));
      }
      ∷ [];
}

new_schema-farm : new_schema farm_lines ≡ done (farm_object ∷ node_object ∷ [])
unfolding new_schema scan_lines on_line on_directive on_property directive property mark_root
    is_referenced ref_of type_def find_type find_directive find_property match_assignment
    match_value span after before_end trim_space to_lower look_up token_split read_kinds nest
    text_eq is_kind
new_schema-farm = refl

new_schema-IsMarked_example : IsMarked (farm_object ∷ node_object ∷ []) node_object
new_schema-IsMarked_example =
    new_schema-IsMarked farm_lines (farm_object ∷ node_object ∷ []) new_schema-farm node_object
      (there farm_object _ (here [])) (λ e. cc)

type_def-IsDefinition_example :
    (type_def (codes "'1, 2' (LI)") ≡ some list_of_numbers)
    ↔ IsDefinition (codes "'1, 2' (LI)") list_of_numbers
type_def-IsDefinition_example = type_def-IsDefinition (codes "'1, 2' (LI)") list_of_numbers

default_json_ports : default_json node_object ≡ codes "{\"ports\": [1, 2]}"
unfolding default_json write_defaults is_skipped entry list_default trim after before_end is_kind
default_json_ports = refl

default_json-joined_example :
    default_json farm_object ≡ b'{' ∷ (joined (entries farm_object.properties) ++ b'}' ∷ [])
default_json-joined_example = default_json-joined farm_object
