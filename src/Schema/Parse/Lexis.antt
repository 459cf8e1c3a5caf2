-- ===== src/Schema/Parse/Lexis.antt =====
-- schema/parse.go: the regular expressions directiveRe, propertyRe and typeRe as matchers, and the
-- functions of strings that are applied to their groups. A class of characters in them stops where
-- the next part begins, so that the greedy choice is the only one.
use tfexplorer.Base.{
  ℕ, ◌+◌, Bool, ◌&&◌, ◌||◌, not, Option, none, some, [], ◌∷◌, ◌==◌, leb, map, if◌then◌else◌,
}
use tfexplorer.Base.Text.{Text, is_empty}

infixl 5 ◌>>=◌
abbrev pub ◌>>=◌ {ℓ κ} : {A : Type ℓ} {B : Type κ} → Option A → (A → Option B) → Option B
none >>= f = none
some a >>= f = f a

-- unicode.IsSpace
abbrev pub is_space : ℕ → Bool
is_space c =
    leb 9 c && leb c 13
    || c == 32
    || c == 0x85
    || c == 0xA0
    || c == 0x1680
    || leb 0x2000 c && leb c 0x200A
    || c == 0x2028
    || c == 0x2029
    || c == 0x202F
    || c == 0x205F
    || c == 0x3000

-- \s
abbrev pub is_blank : ℕ → Bool
is_blank c = c == 9 || c == 10 || c == 12 || c == 13 || c == 32

abbrev pub is_upper : ℕ → Bool
is_upper c = leb b'A' c && leb c b'Z'

abbrev pub is_lower : ℕ → Bool
is_lower c = leb b'a' c && leb c b'z'

-- \w
abbrev pub is_word : ℕ → Bool
is_word c = leb b'0' c && leb c b'9' || is_upper c || is_lower c || c == b'_'

-- The characters in front of a text that pass a test, and the rest.
unfoldable pub span : (ℕ → Bool) → Text → Text
span p [] = []
span p (c ∷ s) = if p c then c ∷ span p s else []

unfoldable pub after : (ℕ → Bool) → Text → Text
after p [] = []
after p (c ∷ s) = if p c then after p s else c ∷ s

-- The text without the characters at its end that pass a test.
unfoldable pub before_end : (ℕ → Bool) → Text → Text
before_end p [] = []
before_end p (c ∷ s) = let rest = before_end p s in if p c && is_empty rest then [] else c ∷ rest

-- strings.TrimSpace
unfoldable pub trim_space : Text → Text
unfolding after before_end
trim_space s = before_end is_space (after is_space s)

-- strings.Trim(s, c)
unfoldable pub trim : ℕ → Text → Text
unfolding after before_end
trim c s = before_end (λ d. d == c) (after (λ d. d == c) s)

-- strings.ToLower on characters of \w
unfoldable pub to_lower : Text → Text
to_lower s = map (λ c. if is_upper c then c + 32 else c) s

-- The blanks of \s* that ([^\#]+) leaves it: all, but the last one if nothing else is there.
abbrev pub drop_blanks : Text → Text
unfolding after
drop_blanks [] = []
drop_blanks (c ∷ []) = c ∷ []
drop_blanks (c ∷ d ∷ s) = if is_blank c then drop_blanks (d ∷ s) else c ∷ d ∷ s

-- \s*([^\#]+)
unfoldable pub match_value : Text → Option Text
unfolding span
match_value s =
    let value = span (λ c. not (c == b'#')) s in
    if is_empty value then none else some (drop_blanks value)

-- \s*=\s*([^\#]+)
abbrev pub match_equals : Text → Option Text
unfolding match_value
match_equals [] = none
match_equals (c ∷ s) = if c == b'=' then match_value s else none

unfoldable pub match_assignment : Text → Option Text
unfolding after match_value
match_assignment s = match_equals (after is_blank s)

-- The characters of \w+ and the value that is assigned to them.
abbrev pub match_named : Text → Text → Option (Text × Text)
unfolding match_assignment
match_named [] s = none
match_named (c ∷ name) s = do value ← match_assignment s; some (c ∷ name, value)

abbrev pub or_else : {A : Type 0} → Option A → Option A → Option A
or_else none b = b
or_else (some a) b = some a

-- directiveRe.FindStringSubmatch: the leftmost match.
unfoldable pub find_directive : Text → Option (Text × Text)
unfolding span after match_assignment
find_directive [] = none
find_directive (c ∷ s) =
    let rest = find_directive s in
    if c == b'@' then or_else (match_named (span is_word s) (after is_word s)) rest else rest

-- (\*){0,2}: the group holds the last star.
abbrev pub stars : Text → Text × Text
stars (c ∷ d ∷ s) = if c == b'*' then (c ∷ [], if d == b'*' then s else d ∷ s) else ([], c ∷ d ∷ s)
stars (c ∷ []) = if c == b'*' then (c ∷ [], []) else ([], c ∷ [])
stars [] = ([], [])

abbrev pub match_property : Text → Text → Option (Text × Text × Text)
unfolding match_assignment
match_property name s = do value ← match_assignment (stars s).1; some (name, (stars s).0, value)

-- propertyRe.FindStringSubmatch: the leftmost match.
unfoldable pub find_property : Text → Option (Text × Text × Text)
unfolding span after match_assignment
find_property [] = none
find_property (c ∷ s) =
    let rest = find_property s in
    if is_word c then or_else (match_property (c ∷ span is_word s) (after is_word s)) rest else rest

-- \s*(?:!(.+))?$
abbrev pub match_mark : Text → Option Text
match_mark [] = some []
match_mark (c ∷ s) =
    if c == b'!' && not (is_empty s) && is_empty (after (λ d. not (d == 10)) s)
    then some s
    else none

abbrev pub match_close : Text → Text → Text → Option (Text × Text × Text)
match_close def [] s = none
match_close def (c ∷ typ) [] = none
match_close def (c ∷ typ) (d ∷ s) = do
  reference ← match_mark (after is_blank s)
  some (def, c ∷ typ, reference)

abbrev pub match_open : Text → Text → Option (Text × Text × Text)
match_open def [] = none
match_open def (c ∷ s) =
    match_close def (span (λ d. not (d == b')')) s) (after (λ d. not (d == b')')) s)

-- typeRe.FindStringSubmatch
unfoldable pub find_type : Text → Option (Text × Text × Text)
unfolding span after
find_type s = match_open (span (λ c. not (c == b'(')) s) (after (λ c. not (c == b'(')) s)
