-- ===== src/Schema/Parse/Types/Definition.antt =====
-- schema/parse.go: which texts typeDef reads, and as which types.
use mathlib.Core.List.{append-nil}
use tfexplorer.Base.{
  ℕ, suc, Bool, true, false, not, Option, none, some, List, [], ◌∷◌, ◌++◌, all, length, ◌≡◌, ◌≢◌,
  refl, sym, ap, ◌∙◌, ◌↔◌, inl, inr, Bool-cases, Option-cases, arith, ◌==◌,
}
use tfexplorer.Base.Text.{Text, is_empty}
use tfexplorer.Schema.Parse.Lexis.{
  ◌>>=◌, is_blank, span, after, trim_space, find_type, match_open, match_close, match_mark,
}
use tfexplorer.Schema.Parse.Types.{
  Kind, unknown_kind, integer_kind, float_kind, bool_kind, string_kind, mobile_kind, email_kind,
  ip_port_kind, ip_address_kind, ip_range_kind, date_kind, date_time_kind, numeric_kind, guid_kind,
  dict_kind, list_kind, object_kind, yaml_kind, multiline_kind, hash_kind, bytes_kind, percent_kind,
  url_kind, enum_kind, TypeDef, plain, of_element, symbols, look_up, token_split, read_kinds,
  object_reference, nest, type_def,
}
use tfexplorer.Schema.Parse.Types.Printed.{
  starts, span-append, after-append, span-all, starts-after, span-after, Spelled, both-some,
  read_kinds_iff,
}

abbrev pub not_open : ℕ → Bool
not_open c = not (c == b'(')

abbrev pub not_close : ℕ → Bool
not_close c = not (c == b')')

abbrev pub in_line : ℕ → Bool
in_line c = not (c == 10)

-- What stands behind the parentheses: nothing, or a mark with a reference, after blanks.
pub data IsMark : Text → Text → Type 0 where
  unmarked : (blanks : Text) → all is_blank blanks ≡ true → IsMark blanks []
  marked :
      (blanks : Text) (c : ℕ) (mark : Text)
      → all is_blank blanks ≡ true
      → all in_line (c ∷ mark) ≡ true
      → IsMark (blanks ++ b'!' ∷ c ∷ mark) (c ∷ mark)

-- Only an object has the reference.
pub data HasReference (k : Kind) (reference : Text) (ref : Text) : Type 0 where
  of_object : k ≡ object_kind → ref ≡ reference → HasReference k reference ref
  of_other : k ≢ object_kind → ref ≡ [] → HasReference k reference ref

-- Kinds nested in their order; the outermost has the default.
pub data IsNested (reference : Text) : Text → List Kind → TypeDef → Type 0 where
  innermost :
      (def : Text) (k : Kind) (ref : Text)
      → HasReference k reference ref
      → IsNested reference def (k ∷ []) (plain k def ref)
  around :
      (def : Text) (k : Kind) (ref : Text) {l : Kind} {ks : List Kind} {t : TypeDef}
      → HasReference k reference ref
      → IsNested reference [] (l ∷ ks) t
      → IsNested reference def (k ∷ l ∷ ks) (of_element k def ref t)

-- A text that defines a type: a default, the symbols of its kinds in parentheses, and a mark.
pub record IsDefinition (text : Text) (t : TypeDef) : Type 0 where
  pub def : Text
  pub c : ℕ
  pub s : Text
  pub tail : Text
  pub mark : Text
  pub kinds : List Kind
  pub parts : text ≡ def ++ b'(' ∷ (c ∷ s ++ b')' ∷ tail)
  pub def_lem : all not_open def ≡ true
  pub s_lem : all not_close (c ∷ s) ≡ true
  pub tail_lem : IsMark tail mark
  pub spelled : Spelled (c ∷ s) kinds
  pub nested : IsNested (trim_space mark) (trim_space def) kinds t

object_reference-HasReference : (k : Kind) (r : Text) → HasReference k r (object_reference k r)
object_reference-HasReference unknown_kind r = of_other (λ h. cc) refl
object_reference-HasReference integer_kind r = of_other (λ h. cc) refl
object_reference-HasReference float_kind r = of_other (λ h. cc) refl
object_reference-HasReference bool_kind r = of_other (λ h. cc) refl
object_reference-HasReference string_kind r = of_other (λ h. cc) refl
object_reference-HasReference mobile_kind r = of_other (λ h. cc) refl
object_reference-HasReference email_kind r = of_other (λ h. cc) refl
object_reference-HasReference ip_port_kind r = of_other (λ h. cc) refl
object_reference-HasReference ip_address_kind r = of_other (λ h. cc) refl
object_reference-HasReference ip_range_kind r = of_other (λ h. cc) refl
object_reference-HasReference date_kind r = of_other (λ h. cc) refl
object_reference-HasReference date_time_kind r = of_other (λ h. cc) refl
object_reference-HasReference numeric_kind r = of_other (λ h. cc) refl
object_reference-HasReference guid_kind r = of_other (λ h. cc) refl
object_reference-HasReference dict_kind r = of_other (λ h. cc) refl
object_reference-HasReference list_kind r = of_other (λ h. cc) refl
object_reference-HasReference object_kind r = of_object refl refl
object_reference-HasReference yaml_kind r = of_other (λ h. cc) refl
object_reference-HasReference multiline_kind r = of_other (λ h. cc) refl
object_reference-HasReference hash_kind r = of_other (λ h. cc) refl
object_reference-HasReference bytes_kind r = of_other (λ h. cc) refl
object_reference-HasReference percent_kind r = of_other (λ h. cc) refl
object_reference-HasReference url_kind r = of_other (λ h. cc) refl
object_reference-HasReference enum_kind r = of_other (λ h. cc) refl

HasReference-eq : (k : Kind) (r ref : Text) → HasReference k r ref → object_reference k r ≡ ref
HasReference-eq k r ref (of_object h e) = rw (h, e) refl
HasReference-eq k r ref (of_other n e) = elim (object_reference-HasReference k r) [
  | of_object h _ ↦ absurd (n h)
  | of_other _ e' ↦ e' ∙ sym e
]

nest-IsNested :
    (def r : Text) (k : Kind) (ks : List Kind) → IsNested r def (k ∷ ks) (nest def r (k ∷ ks))
unfolding nest
nest-IsNested def r k [] = innermost def k _ (object_reference-HasReference k r)
nest-IsNested def r k (l ∷ ks) =
    around def k _ (object_reference-HasReference k r) (nest-IsNested [] r l ks)

IsNested-nest :
    (r def : Text) (ks : List Kind) (t : TypeDef) → IsNested r def ks t → nest def r ks ≡ t
unfolding nest
IsNested-nest r def ks t (innermost _ k ref h) = rw (HasReference-eq k r ref h) refl
IsNested-nest r def ks t (around _ k ref {l} {ks = ks'} {t = t'} h n) =
    rw (HasReference-eq k r ref h, IsNested-nest r [] (l ∷ ks') t' n) refl

after-nil : (p : ℕ → Bool) (s : Text) → all p s ≡ true → after p s ≡ []
unfolding after
after-nil p [] h = refl
after-nil p (c ∷ s) h = ground (arith, after-nil p s)

all-after : (p : ℕ → Bool) (s : Text) → is_empty (after p s) ≡ true → all p s ≡ true
unfolding after
all-after p [] h = refl
all-after p (c ∷ s) h = ground (arith, all-after p s)

IsMark-match_mark :
    (tail mark : Text) → IsMark tail mark → match_mark (after is_blank tail) ≡ some mark
unfolding starts
IsMark-match_mark tail mark (unmarked blanks h) = rw (after-nil is_blank blanks h) refl
IsMark-match_mark tail mark (marked blanks c m h k) =
    rw (after-append is_blank blanks (b'!' ∷ c ∷ m) h refl, after-nil in_line (c ∷ m) k) refl

match_mark-IsMark :
    (blanks u mark : Text)
    → all is_blank blanks ≡ true
    → match_mark u ≡ some mark
    → IsMark (blanks ++ u) mark
match_mark-IsMark blanks [] mark h m =
    let e : mark ≡ [] = cc in rw (append-nil blanks, e) (unmarked blanks h)
match_mark-IsMark blanks (x ∷ []) mark h m = absurd (ground arith)
match_mark-IsMark blanks (x ∷ c ∷ u) mark h m = elim (Bool-cases (x == b'!')) [
  | inr e ↦ absurd (ground arith)
  | inl e ↦ elim (Bool-cases (is_empty (after in_line (c ∷ u)))) [
    | inr k ↦ absurd (ground arith)
    | inl k ↦
        let bang : x ≡ b'!' = ground arith in
        let same : mark ≡ c ∷ u = ground arith in
        rw (bang, same) (marked blanks c u h (all-after in_line (c ∷ u) k))
  ]
]

-- What find_type finds of a text.
record Parts (text def typ mark : Text) : Type 0 where
  c : ℕ
  s : Text
  tail : Text
  typ_lem : c ∷ s ≡ typ
  parts : text ≡ def ++ b'(' ∷ (c ∷ s ++ b')' ∷ tail)
  def_lem : all not_open def ≡ true
  s_lem : all not_close (c ∷ s) ≡ true
  tail_lem : IsMark tail mark

match_mark-blanks :
    (tail mark : Text) → match_mark (after is_blank tail) ≡ some mark → IsMark tail mark
match_mark-blanks tail mark h =
    let m =
      match_mark-IsMark (span is_blank tail) (after is_blank tail) mark (span-all is_blank tail)
        h in
    rw (span-after is_blank tail) at m

some_eq : {A : Type 0} {a b : A} → ◌≡◌ {A = Option A} (some a) (some b) → a ≡ b
some_eq h = cc

match_close_groups :
    (d typ u : Text) {def s mark : Text}
    → starts not_close u ≡ false
    → all not_close typ ≡ true
    → match_close d typ u ≡ some (def, s, mark)
    → (c : ℕ) × (s' tail : Text) × (typ ≡ c ∷ s')
      × (u ≡ b')' ∷ tail)
      × IsMark tail mark
      × (d ≡ def)
      × (typ ≡ s)
unfolding starts
match_close_groups d [] u k a h = absurd (cc h)
match_close_groups d (c ∷ typ) [] k a h = absurd (cc h)
match_close_groups d (c ∷ typ) (y ∷ tail) {def} {s} {mark} k a h =
    elim (Option-cases (match_mark (after is_blank tail))) [
      | inl e ↦
          let missing : ◌≡◌ {A = Option (Text × Text × Text)} none (some (def, s, mark)) =
            rw e at h in
          absurd (cc missing)
      | inr (ref, e) ↦
          let there : ◌≡◌ {A = Option (Text × Text × Text)} (some (d, c ∷ typ, ref))
              (some (def, s, mark)) =
            rw e at h in
          let same : ◌≡◌ {A = Text × Text × Text} (d, c ∷ typ, ref) (def, s, mark) =
            some_eq there in
          let m : match_mark (after is_blank tail) ≡ some mark = e ∙ ap some (ap (λ z. z.2) same) in
          let paren : y ≡ b')' = ground arith in
          (
            c,
            typ,
            tail,
            refl,
            ap (λ z. z ∷ tail) paren,
            match_mark-blanks tail mark m,
            ap (λ z. z.0) same,
            ap (λ z. z.1) same,
          )
    ]

match_open-Parts :
    (d u : Text) {def typ mark : Text}
    → all not_open d ≡ true
    → starts not_open u ≡ false
    → match_open d u ≡ some (def, typ, mark)
    → Parts (d ++ u) def typ mark
unfolding starts
match_open-Parts d [] a k h = absurd (cc h)
match_open-Parts d (x ∷ u) {def} {typ} {mark} a k h =
    let (c, s, tail, et, eu, m, ed, es) =
      match_close_groups d (span not_close u) (after not_close u) (starts-after not_close u)
        (span-all not_close u) h in
    let paren : x ≡ b'(' = ground arith in
    let rest : c ∷ s ++ b')' ∷ tail ≡ u =
      ap (λ t. t ++ b')' ∷ tail) (sym et)
      ∙ ap (λ t. span not_close u ++ t) (sym eu)
      ∙ span-after not_close u in
    record {
      c = c;
      s = s;
      tail = tail;
      typ_lem = sym et ∙ es;
      parts =
          ap (λ z. d ++ z ∷ u) paren
          ∙ ap (λ z. d ++ b'(' ∷ z) (sym rest)
          ∙ ap (λ z. z ++ b'(' ∷ (c ∷ s ++ b')' ∷ tail)) ed;
      def_lem = ap (all not_open) (sym ed) ∙ a;
      s_lem = ap (all not_close) (sym et) ∙ span-all not_close u;
      tail_lem = m;
    }

find_type-Parts :
    (text : Text) {def typ mark : Text}
    → find_type text ≡ some (def, typ, mark)
    → Parts text def typ mark
unfolding find_type
find_type-Parts text h =
    let found =
      match_open-Parts (span not_open text) (after not_open text) (span-all not_open text)
        (starts-after not_open text) h in
    rw (span-after not_open text) at found

find_type-defined :
    (text : Text) (t : TypeDef) (d : IsDefinition text t)
    → find_type text ≡ some (d.def, d.c ∷ d.s, d.mark)
unfolding find_type starts
find_type-defined text t d =
    rw
      (
        d.parts,
        span-append not_open d.def (b'(' ∷ d.c ∷ (d.s ++ b')' ∷ d.tail)) d.def_lem refl,
        after-append not_open d.def (b'(' ∷ d.c ∷ (d.s ++ b')' ∷ d.tail)) d.def_lem refl,
        span-append not_close (d.c ∷ d.s) (b')' ∷ d.tail) d.s_lem refl,
        after-append not_close (d.c ∷ d.s) (b')' ∷ d.tail) d.s_lem refl,
        IsMark-match_mark d.tail d.mark d.tail_lem,
      )
      refl

some_of_iff :
    (m : Option (List Kind)) (f : List Kind → TypeDef) (t : TypeDef)
    → ((m >>= λ ks. some (f ks)) ≡ some t) ↔ ((ks : List Kind) × (m ≡ some ks) × (f ks ≡ t))
some_of_iff none f t = (λ h. absurd (cc h), λ (ks, e, _). absurd (cc e))
some_of_iff (some ks) f t =
    (λ h. (ks, refl, cc), λ (ls, e, h). let same : ks ≡ ls = cc in rw (same, h) refl)

read_kinds-cons :
    (fuel c : ℕ) (s : Text) (ks : List Kind)
    → read_kinds (suc fuel) (c ∷ s) ≡ some ks
    → (k : Kind) × (rest : List Kind) × (k ∷ rest ≡ ks)
unfolding read_kinds
read_kinds-cons fuel c s ks h =
    let (k, rest, _, _, e) =
      both-some (look_up symbols (token_split (c ∷ s)).0) (read_kinds fuel (token_split (c ∷ s)).1)
        {ks = ks} h in
    (k, rest, e)

kinds-IsNested :
    (def r : Text) (k : Kind) (rest ks : List Kind) (t : TypeDef)
    → k ∷ rest ≡ ks
    → nest def r ks ≡ t
    → IsNested r def ks t
kinds-IsNested def r k rest ks t e n =
    let nested : IsNested r def ks (nest def r ks) = rw e at (nest-IsNested def r k rest) in
    rw n at nested

-- What typeDef makes of the parts that the regular expression has found.
type_def-found :
    (text def typ mark : Text) (t : TypeDef)
    → find_type text ≡ some (def, typ, mark)
    → (type_def text ≡ some t) ↔ (
        (ks : List Kind) × (read_kinds (length typ) typ ≡ some ks)
        × (nest (trim_space def) (trim_space mark) ks ≡ t))
unfolding type_def
type_def-found text def typ mark t found =
    let read = read_kinds (length typ) typ in
    let same : type_def text ≡ (read >>= λ ks. some (nest (trim_space def) (trim_space mark) ks)) =
      rw found refl in
    let iff = some_of_iff read (nest (trim_space def) (trim_space mark)) t in
    (λ e. iff.0 (sym same ∙ e), λ p. same ∙ iff.1 p)

type_def-none : (text : Text) (t : TypeDef) → find_type text ≡ none → type_def text ≢ some t
unfolding type_def
type_def-none text t e h =
    let nothing : ◌≡◌ {A = Option TypeDef} none (some t) = rw e at h in cc nothing

typ-Spelled :
    (c : ℕ) (s typ : Text) (ks : List Kind)
    → c ∷ s ≡ typ
    → read_kinds (length typ) typ ≡ some ks
    → Spelled (c ∷ s) ks × ((k : Kind) × (rest : List Kind) × (k ∷ rest ≡ ks))
typ-Spelled c s typ ks e h =
    let read : read_kinds (length (c ∷ s)) (c ∷ s) ≡ some ks =
      ap (λ z. read_kinds (length z) z) e ∙ h in
    (
      (read_kinds_iff (length (c ∷ s)) (c ∷ s) ks (omega arith)).0 read,
      read_kinds-cons (length s) c s ks read,
    )

type_def-defines :
    (text : Text) (t : TypeDef)
    → type_def text ≡ some t
    → ((found : Text × Text × Text) × (find_type text ≡ some found))
    → IsDefinition text t
type_def-defines text t h ((def, typ, mark), found) =
    let p = find_type-Parts text found in
    let (ks, read, n) = (type_def-found text def typ mark t found).0 h in
    let (spelled, cons) = typ-Spelled p.c p.s typ ks p.typ_lem read in
    let (k, rest, e) = cons in
    record {
      def = def;
      c = p.c;
      s = p.s;
      tail = p.tail;
      mark = mark;
      kinds = ks;
      parts = p.parts;
      def_lem = p.def_lem;
      s_lem = p.s_lem;
      tail_lem = p.tail_lem;
      spelled = spelled;
      nested = kinds-IsNested (trim_space def) (trim_space mark) k rest ks t e n;
    }

-- A text is read as a type exactly if it defines it: a default without an opening parenthesis, then
-- in parentheses one or more symbols, and behind them blanks and nothing else or a mark, an
-- exclamation mark with a reference. The type nests the kinds of the symbols in their order, the
-- outermost with the trimmed default, and each object among them with the trimmed reference.
pub type_def-IsDefinition :
    (text : Text) (t : TypeDef) → (type_def text ≡ some t) ↔ IsDefinition text t
type_def-IsDefinition text t = (
  λ h. elim (Option-cases (find_type text)) [
    | inl e ↦ absurd (type_def-none text t e h)
    | inr found ↦ type_def-defines text t h found
  ],
  λ d.
      let found = find_type-defined text t d in
      let read =
        (read_kinds_iff (length (d.c ∷ d.s)) (d.c ∷ d.s) d.kinds (omega arith)).1 d.spelled in
      (type_def-found text d.def (d.c ∷ d.s) d.mark t found).1
        (d.kinds, read, IsNested-nest (trim_space d.mark) (trim_space d.def) d.kinds t d.nested),
)
