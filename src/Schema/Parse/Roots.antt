-- ===== src/Schema/Parse/Roots.antt =====
-- schema/parse.go: which objects New marks as roots.
use tfexplorer.Base.{
  ℕ, suc, Bool, true, false, Option, none, some, List, [], ◌∷◌, ◌++◌, any, map, ◌≡◌, ◌≢◌, refl, sym,
  ap, ◌∙◌, ◌↔◌, ◌⊎◌, inl, inr, Bool-cases, All, Among, here, there, All-append, All-at, any-false,
  ◌==◌, get_elem?, arith, if◌then◌else◌,
}
use tfexplorer.Base.Text.{Text, codes, text_eq, text_eq_refl, text_eq→≡}
use tfexplorer.Schema.Parse.Lexis.{trim_space}
use tfexplorer.Program.{Outcome, done, failed}
use tfexplorer.Schema.Parse.Types.{
  Kind, unknown_kind, integer_kind, float_kind, bool_kind, string_kind, mobile_kind, email_kind,
  ip_port_kind, ip_address_kind, ip_range_kind, date_kind, date_time_kind, numeric_kind, guid_kind,
  dict_kind, list_kind, object_kind, yaml_kind, multiline_kind, hash_kind, bytes_kind, percent_kind,
  url_kind, enum_kind, number_of, is_kind, TypeDef, plain, of_element, reference_of,
}
use tfexplorer.Schema.Parse.{
  Object, Property, Directive, Parser, directive, property, with_directive, with_property,
  on_directive, on_property, on_line, ◌then◌, scan_lines, no_objects, new_object, pushed,
  append_current, ref_of, is_referenced, mark_root, new_schema, SchemaError,
}

-- The properties' types that refer to a URL: an object, or a list or dict with such elements.
pub data Refers (url : Text) : TypeDef → Type 0 where
  plain_object :
      (k : Kind) (def ref : Text) → k ≡ object_kind → ref ≡ url → Refers url (plain k def ref)
  object_with_element :
      (k : Kind) (def ref : Text) (t : TypeDef)
      → k ≡ object_kind
      → ref ≡ url
      → Refers url (of_element k def ref t)
  element_refers :
      (k : Kind) (def ref : Text) (t : TypeDef)
      → (k ≡ list_kind) ⊎ (k ≡ dict_kind)
      → reference_of t ≡ url
      → Refers url (of_element k def ref t)

pub data Referenced (objects : List Object) (url : Text) : Type 0 where
  by_property :
      (b : Object) (prop : Property)
      → Among b objects
      → Among prop b.properties
      → Refers url prop.typ
      → Referenced objects url

abbrev kinds : List Kind
kinds =
    unknown_kind ∷ integer_kind ∷ float_kind ∷ bool_kind ∷ string_kind ∷ mobile_kind ∷ email_kind
    ∷ ip_port_kind ∷ ip_address_kind ∷ ip_range_kind ∷ date_kind ∷ date_time_kind ∷ numeric_kind
    ∷ guid_kind ∷ dict_kind ∷ list_kind ∷ object_kind ∷ yaml_kind ∷ multiline_kind ∷ hash_kind
    ∷ bytes_kind ∷ percent_kind ∷ url_kind ∷ enum_kind ∷ []

kinds-number : (k : Kind) → get_elem? kinds (number_of k) ≡ some k
kinds-number unknown_kind = refl
kinds-number integer_kind = refl
kinds-number float_kind = refl
kinds-number bool_kind = refl
kinds-number string_kind = refl
kinds-number mobile_kind = refl
kinds-number email_kind = refl
kinds-number ip_port_kind = refl
kinds-number ip_address_kind = refl
kinds-number ip_range_kind = refl
kinds-number date_kind = refl
kinds-number date_time_kind = refl
kinds-number numeric_kind = refl
kinds-number guid_kind = refl
kinds-number dict_kind = refl
kinds-number list_kind = refl
kinds-number object_kind = refl
kinds-number yaml_kind = refl
kinds-number multiline_kind = refl
kinds-number hash_kind = refl
kinds-number bytes_kind = refl
kinds-number percent_kind = refl
kinds-number url_kind = refl
kinds-number enum_kind = refl

kind_eq : (k l : Kind) → is_kind k l ≡ true → k ≡ l
unfolding is_kind
kind_eq k l h =
    let e : number_of k ≡ number_of l = ground arith in
    let m : get_elem? kinds (number_of k) ≡ get_elem? kinds (number_of l) =
      ap (get_elem? kinds) e in
    let same : ◌≡◌ {A = Option Kind} (some k) (some l) =
      sym (kinds-number k) ∙ m ∙ kinds-number l in
    cc

ref_of-Refers : (url : Text) (t : TypeDef) → url ≢ [] → ref_of t ≡ url → Refers url t
unfolding ref_of
ref_of-Refers url (plain k def ref) n e = elim (Bool-cases (is_kind k object_kind)) [
  | inl h ↦ plain_object k def ref (kind_eq k object_kind h) (ground arith)
  | inr h ↦ absurd (n (ground arith))
]
ref_of-Refers url (of_element k def ref t) n e = elim (Bool-cases (is_kind k object_kind)) [
  | inl h ↦ object_with_element k def ref t (kind_eq k object_kind h) (ground arith)
  | inr h ↦ elim (Bool-cases (is_kind k list_kind)) [
    | inl l ↦ element_refers k def ref t (inl (kind_eq k list_kind l)) (ground arith)
    | inr l ↦ elim (Bool-cases (is_kind k dict_kind)) [
      | inl d ↦ element_refers k def ref t (inr (kind_eq k dict_kind d)) (ground arith)
      | inr d ↦ absurd (n (ground arith))
    ]
  ]
]

Refers-ref_of : (url : Text) (t : TypeDef) → Refers url t → ref_of t ≡ url
unfolding ref_of is_kind
Refers-ref_of url t (plain_object k def ref h e) = rw h e
Refers-ref_of url t (object_with_element k def ref t' h e) = rw h e
Refers-ref_of url t (element_refers k def ref t' (inl h) e) = rw h e
Refers-ref_of url t (element_refers k def ref t' (inr h) e) = rw h e

any-true {ℓ} :
    {A : Type ℓ} (p : A → Bool) (xs : List A)
    → any p xs ≡ true
    → (a : A) × Among a xs × (p a ≡ true)
any-true p [] h = absurd (ground arith)
any-true p (x ∷ xs) h = elim (Bool-cases (p x)) [
  | inl e ↦ (x, here xs, e)
  | inr e ↦ let (a, k, ha) = any-true p xs (ground arith) in (a, there x xs k, ha)
]

is_referenced-Referenced :
    (objects : List Object) (url : Text)
    → url ≢ []
    → is_referenced objects url ≡ true
    → Referenced objects url
unfolding is_referenced
is_referenced-Referenced objects url n h =
    let (b, among, hb) =
      any-true (λ b. any (λ prop. text_eq url (ref_of prop.typ)) b.properties) objects h in
    let (prop, k, hp) = any-true (λ prop. text_eq url (ref_of prop.typ)) b.properties hb in
    by_property b prop among k (ref_of-Refers url prop.typ n (sym (text_eq→≡ url _ hp)))

-- An object that a property refers to is not unreferenced.
Referenced-is_referenced :
    (objects : List Object) (url : Text)
    → Referenced objects url
    → is_referenced objects url ≢ false
unfolding is_referenced
Referenced-is_referenced objects url (by_property b prop among k r) h =
    let hb =
      any-false (λ b. any (λ prop. text_eq url (ref_of prop.typ)) b.properties) objects h among in
    let hp = any-false (λ prop. text_eq url (ref_of prop.typ)) b.properties hb k in
    let same : text_eq url (ref_of prop.typ) ≡ true =
      rw (Refers-ref_of url prop.typ r) (text_eq_refl url) in
    ground arith

-- The objects as they are read, none of them marked.
Unmarked : Parser → Type 0
Unmarked p = All (λ o. o.is_root ≡ false) (pushed p)

All-last {ℓ κ} :
    {A : Type ℓ} (P : A → Type κ) (xs : List A) (a b : A)
    → All P (xs ++ a ∷ [])
    → (P a → P b)
    → All P (xs ++ b ∷ [])
All-last P [] a b h f = (f h.0, tt)
All-last P (x ∷ xs) a b h f = (h.0, All-last P xs a b h.1 f)

done_eq : {a b : Parser} → ◌≡◌ {A = Outcome SchemaError Parser} (done a) (done b) → a ≡ b
done_eq h = cc

with_directive-Unmarked :
    (nr : ℕ) (dir : Directive) (p p' : Parser) (c : Option Object)
    → All (λ o. o.is_root ≡ false) (append_current p.schema c)
    → with_directive nr dir p c ≡ done p'
    → Unmarked p'
unfolding Unmarked
with_directive-Unmarked nr dir p p' none h e = absurd (cc e)
with_directive-Unmarked nr dir p p' (some o) h e =
    rw (← done_eq e) (All-last (λ o. o.is_root ≡ false) p.schema o _ h (λ k. k))

with_property-Unmarked :
    (nr : ℕ) (prop : Option Property) (p p' : Parser) (o : Object)
    → All (λ o. o.is_root ≡ false) (append_current p.schema (some o))
    → with_property nr prop p o ≡ done p'
    → Unmarked p'
unfolding Unmarked
with_property-Unmarked nr none p p' o h e = absurd (cc e)
with_property-Unmarked nr (some prop) p p' o h e =
    rw (← done_eq e) (All-last (λ o. o.is_root ≡ false) p.schema o _ h (λ k. k))

on_directive-Unmarked :
    (nr : ℕ) (dir : Option Directive) (p p' : Parser)
    → Unmarked p
    → on_directive nr dir p ≡ done p'
    → Unmarked p'
unfolding Unmarked on_directive
on_directive-Unmarked nr none p p' h e = absurd (cc e)
on_directive-Unmarked nr (some dir) p p' h e = elim (Bool-cases (text_eq dir.key (codes "url"))) [
  | inl u ↦
      let next : Parser = record { schema = pushed p; current = some (new_object dir.value) } in
      let same = done_eq {a = next} {b = p'} (ground arith) in
      rw (← same) (All-append (λ o. o.is_root ≡ false) (pushed p) _ h (refl, tt))
  | inr u ↦ with_directive-Unmarked nr dir p p' p.current h (ground arith)
]

on_property-Unmarked :
    (nr : ℕ) (line : Text) (p p' : Parser) (c : Option Object)
    → All (λ o. o.is_root ≡ false) (append_current p.schema c)
    → on_property nr line p c ≡ done p'
    → Unmarked p'
unfolding on_property
on_property-Unmarked nr line p p' none h e = absurd (cc e)
on_property-Unmarked nr line p p' (some o) h e =
    with_property-Unmarked nr (property line) p p' o h e

on_line-Unmarked :
    (nr : ℕ) (line : Text) (p p' : Parser) → Unmarked p → on_line nr line p ≡ done p' → Unmarked p'
unfolding Unmarked on_line
on_line-Unmarked nr [] p p' h e = rw (← done_eq e) h
on_line-Unmarked nr (c ∷ s) p p' h e = elim (Bool-cases (c == b'#')) [
  | inl k ↦ rw (← done_eq {a = p} {b = p'} (ground arith)) h
  | inr k ↦ elim (Bool-cases (c == b'@')) [
    | inl d ↦ on_directive-Unmarked nr (directive (c ∷ s)) p p' h (ground arith)
    | inr d ↦ on_property-Unmarked nr (c ∷ s) p p' p.current h (ground arith)
  ]
]

then-eq-done :
    {A B : Type 0} (m : Outcome SchemaError A) (f : A → Outcome SchemaError B) {b : B}
    → (m then f) ≡ done b
    → (a : A) × (m ≡ done a) × (f a ≡ done b)
then-eq-done (done a) f h = (a, refl, h)
then-eq-done (failed e) f h = absurd (cc h)

scan_lines-Unmarked :
    (nr : ℕ) (lines : List Text) (p p' : Parser)
    → Unmarked p
    → scan_lines nr lines p ≡ done p'
    → Unmarked p'
unfolding scan_lines
scan_lines-Unmarked nr [] p p' h e = rw (← done_eq e) h
scan_lines-Unmarked nr (line ∷ lines) p p' h e =
    let (q, step, rest) =
      then-eq-done (on_line (suc nr) (trim_space line) p) (scan_lines (suc nr) lines) e in
    scan_lines-Unmarked (suc nr) lines q p' (on_line-Unmarked (suc nr) (trim_space line) p q h step)
      rest

marked-properties :
    (b : Bool) (a : Object)
    → (if b then a else record a { is_root = true }).properties ≡ a.properties
marked-properties true a = refl
marked-properties false a = refl

marked-url : (b : Bool) (a : Object) → (if b then a else record a { is_root = true }).url ≡ a.url
marked-url true a = refl
marked-url false a = refl

is_referenced-mark_root :
    (all objects : List Object) (url : Text)
    → is_referenced (map (mark_root all) objects) url ≡ is_referenced objects url
unfolding is_referenced mark_root
is_referenced-mark_root all [] url = refl
is_referenced-mark_root all (o ∷ objects) url =
    rw (marked-properties (is_referenced all o.url) o, is_referenced-mark_root all objects url) refl

Among-map {ℓ κ} :
    {A : Type ℓ} {B : Type κ} (f : A → B) {b : B} (xs : List A)
    → Among b (map f xs)
    → (a : A) × Among a xs × (f a ≡ b)
Among-map f [] k = elim k [ ]
Among-map f (x ∷ xs) (here _) = (x, here xs, refl)
Among-map f (x ∷ xs) (there _ _ k) = let (a, k', e) = Among-map f xs k in (a, there x xs k', e)

-- An object is marked as a root exactly if no property refers to it.
abbrev pub IsMarked : List Object → Object → Type 0
IsMarked objects a = (a.is_root ≡ true) ↔ (¬ Referenced objects a.url)

mark_root-IsMarked :
    (objects : List Object) (b : Object)
    → b.is_root ≡ false
    → b.url ≢ []
    → IsMarked (map (mark_root objects) objects) (mark_root objects b)
unfolding mark_root
mark_root-IsMarked objects b h n = elim (Bool-cases (is_referenced objects b.url)) [
  | inl t ↦
      let same : mark_root objects b ≡ b = rw t refl in
      let found =
        is_referenced-Referenced (map (mark_root objects) objects) b.url n
          (is_referenced-mark_root objects objects b.url ∙ t) in
      rw same (λ r. absurd (ground arith), λ none_refers. absurd (none_refers found))
  | inr f ↦
      let next : Object = record b { is_root = true } in
      let same : mark_root objects b ≡ next = rw f refl in
      let none_refers : ¬ Referenced (map (mark_root objects) objects) b.url = λ r.
        Referenced-is_referenced (map (mark_root objects) objects) b.url r
          (is_referenced-mark_root objects objects b.url ∙ f) in
      rw same (λ _. none_refers, λ _. refl)
]

objects_eq :
    {a b : List Object} → ◌≡◌ {A = Outcome SchemaError (List Object)} (done a) (done b) → a ≡ b
objects_eq h = cc

mark_root-url : (all : List Object) (a : Object) → (mark_root all a).url ≡ a.url
unfolding mark_root
mark_root-url all a = marked-url (is_referenced all a.url) a

-- If New succeeds, each object with a URL that is not empty is marked as a root exactly if no
-- property of any object refers to its URL: as an object, or as the element of a list or dict. The
-- element of an element is not looked at.
pub new_schema-IsMarked :
    (lines : List Text) (objects : List Object)
    → new_schema lines ≡ done objects
    → (a : Object) → Among a objects
    → a.url ≢ []
    → IsMarked objects a
unfolding new_schema Unmarked
new_schema-IsMarked lines objects h a k n =
    let (p, scanned, e) = then-eq-done (scan_lines 0 lines no_objects) _ h in
    let same = objects_eq e in
    let (b, kb, eb) = Among-map (mark_root (pushed p)) {b = a} (pushed p) (rw same k) in
    let unmarked = scan_lines-Unmarked 0 lines no_objects p tt scanned in
    let named : b.url ≢ [] = λ z. n (sym (ap (λ o. o.url) eb) ∙ mark_root-url (pushed p) b ∙ z) in
    rw (← same, ← eb)
      (mark_root-IsMarked (pushed p) b (All-at (λ o. o.is_root ≡ false) (pushed p) unmarked kb)
        named)
