-- ===== src/Schema/Parse/Types/Printed.antt =====
-- schema/parse.go: how the types of a property are spelled with symbols.
use tfexplorer.Base.{
  ℕ, zero, suc, ◌≤◌, Bool, true, false, ◌&&◌, Option, none, some, List, [], ◌∷◌, ◌++◌, all, length,
  ◌≡◌, refl, ◌↔◌, inl, inr, Bool-cases, arith,
}
use tfexplorer.Base.Text.{Text, text_eq}
use tfexplorer.Schema.Parse.Lexis.{◌>>=◌, is_upper, is_lower, span, after}
use tfexplorer.Schema.Parse.Types.{Kind, symbols, look_up, token_split, read_kinds}

unfoldable pub starts : (ℕ → Bool) → Text → Bool
starts p [] = false
starts p (c ∷ s) = p c

module _ (p : ℕ → Bool) where
  pub span-append : (w s : Text) → all p w ≡ true → starts p s ≡ false → span p (w ++ s) ≡ w
  unfolding span starts
  span-append [] [] h k = refl
  span-append [] (c ∷ s) h k = rw k refl
  span-append (c ∷ w) s h k = ground (arith, span-append w s)

  pub after-append : (w s : Text) → all p w ≡ true → starts p s ≡ false → after p (w ++ s) ≡ s
  unfolding after starts
  after-append [] [] h k = refl
  after-append [] (c ∷ s) h k = rw k refl
  after-append (c ∷ w) s h k = ground (arith, after-append w s)

  pub span-all : (s : Text) → all p (span p s) ≡ true
  unfolding span
  span-all [] = refl
  span-all (c ∷ s) = ground (arith, span-all s)

  pub starts-after : (s : Text) → starts p (after p s) ≡ false
  unfolding after starts
  starts-after [] = refl
  starts-after (c ∷ s) = ground (arith, starts-after s)

  pub span-after : (s : Text) → span p s ++ after p s ≡ s
  unfolding span after
  span-after [] = refl
  span-after (c ∷ s) = ground (arith, span-after s)

  length-after : (s : Text) → length (after p s) ≤ length s
  unfolding after
  length-after [] = omega arith
  length-after (c ∷ s) = ground (arith, length-after s)

-- A text that is made of symbols: upper case letters, and lower case words that no lower case letter
-- follows.
pub data Spelled : Text → List Kind → Type 0 where
  no_symbols : Spelled [] []
  upper :
      (c : ℕ) (k : Kind) (s : Text) (ks : List Kind)
      → is_upper c ≡ true
      → look_up symbols (c ∷ []) ≡ some k
      → Spelled s ks
      → Spelled (c ∷ s) (k ∷ ks)
  lower :
      (c : ℕ) (w : Text) (k : Kind) (s : Text) (ks : List Kind)
      → all is_lower (c ∷ w) ≡ true
      → starts is_lower s ≡ false
      → look_up symbols (c ∷ w) ≡ some k
      → Spelled s ks
      → Spelled (c ∷ w ++ s) (k ∷ ks)

lower_not_upper : (c : ℕ) → is_lower c ≡ true → is_upper c ≡ false
lower_not_upper c h = ground arith

first_holds : (a b : Bool) → (a && b) ≡ true → a ≡ true
first_holds true b h = refl
first_holds false b h = h

length-rest : (w s : Text) → length s ≤ length (w ++ s)
length-rest [] s = omega arith
length-rest (c ∷ w) s = omega (arith, length-rest w s)

read_kinds-Spelled :
    (fuel : ℕ) (s : Text) (ks : List Kind)
    → length s ≤ fuel
    → Spelled s ks
    → read_kinds fuel s ≡ some ks
unfolding read_kinds token_split
read_kinds-Spelled fuel s ks n no_symbols = refl
read_kinds-Spelled zero s ks n (upper c k s' ks' u h t) = absurd (omega arith)
read_kinds-Spelled (suc fuel) s ks n (upper c k s' ks' u h t) =
    rw (u, h, read_kinds-Spelled fuel s' ks' (omega arith) t) refl
read_kinds-Spelled zero s ks n (lower c w k s' ks' l e h t) = absurd (omega arith)
read_kinds-Spelled (suc fuel) s ks n (lower c w k s' ks' l e h t) =
    let c_lower : is_lower c ≡ true = first_holds (is_lower c) (all is_lower w) l in
    rw
      (
        lower_not_upper c c_lower,
        span-append is_lower (c ∷ w) s' l e,
        after-append is_lower (c ∷ w) s' l e,
        h,
        read_kinds-Spelled fuel s' ks' (omega (arith, length-rest w s')) t,
      )
      refl

pub both-some :
    (m : Option Kind) (r : Option (List Kind)) {ks : List Kind}
    → (m >>= λ k. r >>= λ rest. some (k ∷ rest)) ≡ some ks
    → (k : Kind) × (rest : List Kind) × (m ≡ some k) × (r ≡ some rest) × (k ∷ rest ≡ ks)
both-some none r h = absurd (cc h)
both-some (some k) none h = absurd (cc h)
both-some (some k) (some rest) {ks} h = (k, rest, refl, refl, cc)

look_up-none : look_up symbols [] ≡ none
unfolding look_up text_eq
look_up-none = refl

Spelled-no_symbols :
    (ks : List Kind) → ◌≡◌ {A = Option (List Kind)} (some []) (some ks) → Spelled [] ks
Spelled-no_symbols [] h = no_symbols
Spelled-no_symbols (k ∷ ks) h = absurd (cc h)

first_symbol :
    (c : ℕ) (s : Text) (k : Kind) (ks : List Kind)
    → look_up symbols (token_split (c ∷ s)).0 ≡ some k
    → Spelled (token_split (c ∷ s)).1 ks
    → Spelled (c ∷ s) (k ∷ ks)
unfolding token_split span after
first_symbol c s k ks h t = elim (Bool-cases (is_upper c)) [
  | inl u ↦
      let symbol : look_up symbols (c ∷ []) ≡ some k = rw (u) at h in
      upper c k s ks u symbol (rw (u) at t)
  | inr u ↦ elim (Bool-cases (is_lower c)) [
    | inl l ↦
        let symbol : look_up symbols (c ∷ span is_lower s) ≡ some k = rw (u, l) at h in
        let rest : Spelled (after is_lower s) ks = rw (u, l) at t in
        let whole : all is_lower (c ∷ span is_lower s) ≡ true = rw (l, span-all is_lower s) refl in
        let spelled : Spelled (c ∷ span is_lower s ++ after is_lower s) (k ∷ ks) =
          lower c (span is_lower s) k (after is_lower s) ks whole (starts-after is_lower s) symbol
            rest in
        rw (span-after is_lower s) at spelled
    | inr l ↦
        let symbol : look_up symbols [] ≡ some k = rw (u, l) at h in
        let missing = look_up-none in absurd cc
  ]
]

Spelled-read_kinds :
    (fuel : ℕ) (s : Text) (ks : List Kind) → read_kinds fuel s ≡ some ks → Spelled s ks
unfolding read_kinds
Spelled-read_kinds fuel [] ks h = Spelled-no_symbols ks h
Spelled-read_kinds zero (c ∷ s) ks h = absurd (cc h)
Spelled-read_kinds (suc fuel) (c ∷ s) ks h =
    let (k, rest, symbol, read, e) =
      both-some (look_up symbols (token_split (c ∷ s)).0) (read_kinds fuel (token_split (c ∷ s)).1)
        {ks = ks} h in
    rw (← e)
      (first_symbol c s k rest symbol (Spelled-read_kinds fuel (token_split (c ∷ s)).1 rest read))

-- The kinds of a text are read exactly as it is spelled, whatever fuel there is beyond its length.
pub read_kinds_iff :
    (fuel : ℕ) (s : Text) (ks : List Kind)
    → length s ≤ fuel
    → (read_kinds fuel s ≡ some ks) ↔ Spelled s ks
read_kinds_iff fuel s ks n = (Spelled-read_kinds fuel s ks, read_kinds-Spelled fuel s ks n)
