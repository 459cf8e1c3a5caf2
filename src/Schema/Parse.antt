-- ===== src/Schema/Parse.antt =====
-- schema/parse.go: the reader of schema texts. bufio.Scanner, which cuts a text into lines, is left
-- out: New takes the lines.
pub mod Lexis
pub mod Types
pub mod Roots
pub mod Defaults
use tfexplorer.Base.{
  ℕ, suc, Bool, true, false, ◌&&◌, ◌||◌, not, Option, none, some, List, [], ◌∷◌, ◌++◌, any, map,
  ltb, length, ◌==◌, if◌then◌else◌,
}
use tfexplorer.Base.Text.{Text, codes, is_empty, text_eq}
use tfexplorer.Program.{Outcome, done, failed}
use tfexplorer.Schema.Parse.Lexis.{◌>>=◌, trim_space, to_lower, find_directive, find_property}
use tfexplorer.Schema.Parse.Types.{
  Kind, object_kind, list_kind, dict_kind, enum_kind, TypeDef, plain, of_element, kind_of,
  default_of, reference_of, unknown_type, type_def, is_kind,
}

pub record Directive : Type 0 where
  pub key : Text
  pub value : Text

pub record Property : Type 0 where
  pub name : Text
  pub indexed : Bool
  pub typ : TypeDef

pub record Object : Type 0 where
  pub url : Text
  pub is_root : Bool
  pub directives : List Directive
  pub properties : List Property

-- The errors of New; the number is that of the line.
pub data SchemaError : Type 0 where
  invalid_directive : SchemaError
  unexpected_directive : ℕ → Directive → SchemaError
  unexpected_token : ℕ → Text → SchemaError
  invalid_property : ℕ → SchemaError

unfoldable pub directive : Text → Option Directive
unfolding find_directive trim_space to_lower
directive line = do
  (key, value) ← find_directive line
  some (record { key = to_lower key; value = trim_space value })

-- property's type: an error of typeDef is dropped, and leaves the zero type.
abbrev pub or_unknown : Option TypeDef → TypeDef
or_unknown none = unknown_type
or_unknown (some t) = t

unfoldable pub property : Text → Option Property
unfolding find_property trim_space type_def text_eq
property line = do
  (name, star, def) ← find_property line
  some (record {
    name = name;
    indexed = text_eq star (b'*' ∷ []);
    typ = or_unknown (type_def (trim_space def));
  })

-- The variables of the loop in New.
pub record Parser : Type 0 where
  pub schema : List Object
  pub current : Option Object

abbrev pub no_objects : Parser
no_objects = record { schema = []; current = none }

abbrev pub new_object : Text → Object
new_object url = record { url = url; is_root = false; directives = []; properties = [] }

-- The objects that are finished when the current one is.
abbrev pub append_current : List Object → Option Object → List Object
append_current objects none = objects
append_current objects (some o) = objects ++ o ∷ []

abbrev pub pushed : Parser → List Object
pushed p = append_current p.schema p.current

abbrev pub with_directive : ℕ → Directive → Parser → Option Object → Outcome SchemaError Parser
with_directive nr dir p none = failed (unexpected_directive nr dir)
with_directive nr dir p (some o) =
    let o' : Object = record o { directives = o.directives ++ dir ∷ [] } in
    done (record p { current = some o' })

unfoldable pub on_directive : ℕ → Option Directive → Parser → Outcome SchemaError Parser
unfolding text_eq
on_directive nr none p = failed invalid_directive
on_directive nr (some dir) p =
    if text_eq dir.key (codes "url")
    then done (record { schema = pushed p; current = some (new_object dir.value) })
    else with_directive nr dir p p.current

abbrev pub with_property : ℕ → Option Property → Parser → Object → Outcome SchemaError Parser
with_property nr none p o = failed (invalid_property nr)
with_property nr (some prop) p o =
    let o' : Object = record o { properties = o.properties ++ prop ∷ [] } in
    done (record p { current = some o' })

unfoldable pub on_property : ℕ → Text → Parser → Option Object → Outcome SchemaError Parser
unfolding property
on_property nr line p none = failed (unexpected_token nr line)
on_property nr line p (some o) = with_property nr (property line) p o

-- The switch on the first character of a trimmed line.
unfoldable pub on_line : ℕ → Text → Parser → Outcome SchemaError Parser
unfolding directive on_directive on_property
on_line nr [] p = done p
on_line nr (c ∷ s) p =
    if c == b'#'
    then done p
    else if c == b'@'
    then on_directive nr (directive (c ∷ s)) p
    else on_property nr (c ∷ s) p p.current

infixl 5 ◌then◌
abbrev pub ◌then◌ :
    {A B : Type 0} → Outcome SchemaError A → (A → Outcome SchemaError B) → Outcome SchemaError B
done a then f = f a
failed e then f = failed e

-- The loop over the lines.
unfoldable pub scan_lines : ℕ → List Text → Parser → Outcome SchemaError Parser
unfolding on_line trim_space
scan_lines nr [] p = done p
scan_lines nr (line ∷ lines) p = on_line (suc nr) (trim_space line) p then scan_lines (suc nr) lines

-- The reference of a property's type: of the type itself, or of the elements of a list or dict.
unfoldable pub ref_of : TypeDef → Text
unfolding is_kind
ref_of (plain k def ref) = if is_kind k object_kind then ref else []
ref_of (of_element k def ref t) =
    if is_kind k object_kind
    then ref
    else if is_kind k list_kind || is_kind k dict_kind
    then reference_of t
    else []

unfoldable pub is_referenced : List Object → Text → Bool
unfolding ref_of text_eq
is_referenced schema url =
    any (λ b. any (λ prop. text_eq url (ref_of prop.typ)) b.properties) schema

-- The loop `root`, for one object.
unfoldable pub mark_root : List Object → Object → Object
unfolding is_referenced
mark_root schema a = if is_referenced schema a.url then a else record a { is_root = true }

-- New. Beside an error it returns the objects that were finished, which nothing reads.
unfoldable pub new_schema : List Text → Outcome SchemaError (List Object)
unfolding scan_lines mark_root
new_schema lines =
    scan_lines 0 lines no_objects then (λ p. done (map (mark_root (pushed p)) (pushed p)))
