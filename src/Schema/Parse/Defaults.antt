-- ===== src/Schema/Parse/Defaults.antt =====
-- schema/parse.go: Object.Default, which writes the default values of an object as JSON.
use mathlib.Core.List.{append-nil, append_assoc}
use tfexplorer.Base.{
  Bool, true, ◌||◌, List, [], ◌∷◌, ◌++◌, ltb, lt→ltb, ltb→lt, sym, length, length-append, ◌≡◌, refl,
  arith, ◌==◌, Bool-cases, inl, inr, if◌then◌else◌,
}
use tfexplorer.Base.Text.{Text, codes, is_empty}
use tfexplorer.Schema.Parse.Lexis.{trim}
use tfexplorer.Schema.Parse.Types.{kind_of, default_of, list_kind, enum_kind, is_kind}
use tfexplorer.Schema.Parse.{Object, Property}

-- listDefault, for a default that is not empty.
unfoldable pub list_default : Text → Text
unfolding trim
list_default [] = []
list_default (c ∷ s) =
    if c == b'[' then c ∷ s else b'[' ∷ (trim (if c == 39 then 39 else 34) (c ∷ s) ++ b']' ∷ [])

-- Whether a property has no default in the JSON.
unfoldable pub is_skipped : Property → Bool
unfolding is_kind
is_skipped prop = is_empty (default_of prop.typ) || is_kind (kind_of prop.typ) enum_kind

unfoldable pub entry : Property → Text
unfolding list_default is_kind
entry prop =
    34
    ∷ (prop.name
        ++ (34
            ∷ b':'
            ∷ b' '
            ∷ (if is_kind (kind_of prop.typ) list_kind
                then list_default (default_of prop.typ)
                else default_of prop.typ)))

-- The loop over the properties, with what is written so far.
unfoldable pub write_defaults : Text → List Property → Text
unfolding is_skipped entry
write_defaults buf [] = buf
write_defaults buf (prop ∷ props) =
    if is_skipped prop
    then write_defaults buf props
    else write_defaults ((if ltb 1 (length buf) then buf ++ codes ", " else buf) ++ entry prop)
        props

-- Object.Default
unfoldable pub default_json : Object → Text
unfolding write_defaults
default_json o = write_defaults (b'{' ∷ []) o.properties ++ b'}' ∷ []

-- The entries of the properties that have a default.
unfoldable pub entries : List Property → List Text
unfolding is_skipped entry
entries [] = []
entries (prop ∷ props) = if is_skipped prop then entries props else entry prop ∷ entries props

unfoldable pub preceded : List Text → Text
preceded [] = []
preceded (e ∷ es) = codes ", " ++ (e ++ preceded es)

-- Texts with a comma and a space between them.
unfoldable pub joined : List Text → Text
unfolding preceded
joined [] = []
joined (e ∷ es) = e ++ preceded es

longer : (buf s : Text) → ltb 1 (length buf) ≡ true → ltb 1 (length (buf ++ s)) ≡ true
longer buf s h =
    let n = ltb→lt 1 (length buf) h in
    lt→ltb 1 (length (buf ++ s)) (omega (arith, length-append buf s))

write_defaults-preceded :
    (buf : Text) (props : List Property)
    → ltb 1 (length buf) ≡ true
    → write_defaults buf props ≡ buf ++ preceded (entries props)
unfolding write_defaults preceded entries
write_defaults-preceded buf [] h = sym (append-nil buf)
write_defaults-preceded buf (prop ∷ props) h = elim (Bool-cases (is_skipped prop)) [
  | inl e ↦ rw e (write_defaults-preceded buf props h)
  | inr e ↦
      let next = (buf ++ codes ", ") ++ entry prop in
      let long = longer (buf ++ codes ", ") (entry prop) (longer buf (codes ", ") h) in
      rw
        (
          e,
          h,
          write_defaults-preceded next props long,
          append_assoc (buf ++ codes ", ") (entry prop) (preceded (entries props)),
          append_assoc buf (codes ", ") (entry prop ++ preceded (entries props)),
        )
        refl
]

entry-length : (prop : Property) → ltb 1 (length (b'{' ∷ entry prop)) ≡ true
unfolding entry
entry-length prop = lt→ltb 1 (length (b'{' ∷ entry prop)) (omega arith)

write_defaults-joined :
    (props : List Property) → write_defaults (b'{' ∷ []) props ≡ b'{' ∷ joined (entries props)
unfolding write_defaults joined entries
write_defaults-joined [] = refl
write_defaults-joined (prop ∷ props) = elim (Bool-cases (is_skipped prop)) [
  | inl e ↦ rw e (write_defaults-joined props)
  | inr e ↦ rw (e, write_defaults-preceded (b'{' ∷ entry prop) props (entry-length prop)) refl
]

-- The default of an object is the entries of the properties that have a default and are no enum, in
-- their order, with a comma between two of them and none elsewhere, in braces.
pub default_json-joined :
    (o : Object) → default_json o ≡ b'{' ∷ (joined (entries o.properties) ++ b'}' ∷ [])
unfolding default_json
default_json-joined o = rw (write_defaults-joined o.properties) refl
