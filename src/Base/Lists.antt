-- ===== src/Base/Lists.antt =====
-- Lists measured and searched with native numbers and Boolean tests.
use Prim.Native.Nat.{ℕ, zero, suc, ◌+◌}
use mathlib.Core.Path.{◌≡◌, refl}
use mathlib.Core.Logic.{◌⊎◌, inl, inr}
use mathlib.Core.Bool.{Bool, true, false, ◌&&◌, ◌||◌}
use mathlib.Core.List.{List, [], ◌∷◌, ◌++◌}
use mathlib.Core.Option.{Option, none, some}
use native.Mathlib.Omega.{arith}
use tfexplorer.Base.Tests.{if◌then◌else◌}

module _ {ℓ} {A : Type ℓ} where
  abbrev pub length : List A → ℕ
  length [] = 0
  length (x ∷ xs) = suc (length xs)

  -- The elements that pass a test, in order.
  abbrev pub keep : (A → Bool) → List A → List A
  keep p [] = []
  keep p (x ∷ xs) = let rest = keep p xs in if p x then x ∷ rest else rest

  -- The first element that passes a test.
  abbrev pub find : (A → Bool) → List A → Option A
  find p [] = none
  find p (x ∷ xs) = if p x then some x else find p xs

  abbrev pub all : (A → Bool) → List A → Bool
  all p [] = true
  all p (x ∷ xs) = p x && all p xs

  abbrev pub any : (A → Bool) → List A → Bool
  any p [] = false
  any p (x ∷ xs) = p x || any p xs

  abbrev pub drop : ℕ → List A → List A
  drop zero xs = xs
  drop (suc n) [] = []
  drop (suc n) (x ∷ xs) = drop n xs

  abbrev pub take : ℕ → List A → List A
  take zero xs = []
  take (suc n) [] = []
  take (suc n) (x ∷ xs) = x ∷ take n xs

  abbrev pub get_elem? : List A → ℕ → Option A
  get_elem? [] i = none
  get_elem? (x ∷ xs) zero = some x
  get_elem? (x ∷ xs) (suc i) = get_elem? xs i

  pub length-append : (xs ys : List A) → length (xs ++ ys) ≡ length xs + length ys
  length-append [] ys = omega arith
  length-append (x ∷ xs) ys = omega (arith, length-append xs ys)

  pub keep-append : (p : A → Bool) (xs ys : List A) → keep p (xs ++ ys) ≡ keep p xs ++ keep p ys
  keep-append p [] ys = refl
  keep-append p (x ∷ xs) ys = ground (arith, keep-append p xs ys)

  pub find-holds : (p : A → Bool) (xs : List A) {a : A} → find p xs ≡ some a → p a ≡ true
  find-holds p [] h = ground arith
  find-holds p (x ∷ xs) {a} h = ground (arith, find-holds p xs {a = a})

-- A predicate of every element, by recursion.
abbrev pub All {ℓ κ} : {A : Type ℓ} → (A → Type κ) → List A → Type κ
All P [] = Unit
All P (x ∷ xs) = P x × All P xs

-- The places at which an element stands in a list.
pub data Among {ℓ} {A : Type ℓ} (a : A) : List A → Type ℓ where
  here : (xs : List A) → Among a (a ∷ xs)
  there : (x : A) (xs : List A) → Among a xs → Among a (x ∷ xs)

-- Every element satisfies what holds for all that stand in the list.
pub All-Among {ℓ κ} :
    {A : Type ℓ} (P : A → Type κ) (xs : List A) → ((a : A) → Among a xs → P a) → All P xs
All-Among P [] h = tt
All-Among P (x ∷ xs) h = (h x (here xs), All-Among P xs (λ a k. h a (there x xs k)))

pub All-at {ℓ κ} : {A : Type ℓ} (P : A → Type κ) {a : A} (xs : List A) → All P xs → Among a xs → P a
All-at P [] h k = elim k [ ]
All-at P (x ∷ xs) h (here _) = h.0
All-at P (x ∷ xs) h (there _ _ k) = All-at P xs h.1 k

pub All-append {ℓ κ} :
    {A : Type ℓ} (P : A → Type κ) (xs ys : List A) → All P xs → All P ys → All P (xs ++ ys)
All-append P [] ys h k = k
All-append P (x ∷ xs) ys h k = (h.0, All-append P xs ys h.1 k)

pub Among-append {ℓ} :
    {A : Type ℓ} {a : A} (xs ys : List A) → Among a xs ⊎ Among a ys → Among a (xs ++ ys)
Among-append [] ys (inl k) = elim k [ ]
Among-append [] ys (inr k) = k
Among-append (x ∷ xs) ys (inl (here _)) = here _
Among-append (x ∷ xs) ys (inl (there _ _ k)) = there x _ (Among-append xs ys (inl k))
Among-append (x ∷ xs) ys (inr k) = there x _ (Among-append xs ys (inr k))

Among-if {ℓ} :
    {A : Type ℓ} (b : Bool) (x : A) (r : List A) {a : A}
    → Among a (if b then x ∷ r else r)
    → ((a ≡ x) × (b ≡ true)) ⊎ Among a r
Among-if true x r (here _) = inl (refl, refl)
Among-if true x r (there _ _ k) = inr k
Among-if false x r k = inr k

pub Among-keep {ℓ} :
    {A : Type ℓ} (p : A → Bool) {a : A} (xs : List A)
    → Among a (keep p xs)
    → Among a xs × (p a ≡ true)
Among-keep p [] k = elim k [ ]
Among-keep p {a} (x ∷ xs) k = elim (Among-if (p x) x (keep p xs) k) [
  | inl (e, h) ↦ rw e (here xs, h)
  | inr k' ↦ (there x xs (Among-keep p xs k').0, (Among-keep p xs k').1)
]

pub any-false {ℓ} :
    {A : Type ℓ} (p : A → Bool) {a : A} (xs : List A) → any p xs ≡ false → Among a xs → p a ≡ false
any-false p [] h k = elim k [ ]
any-false p (x ∷ xs) h (here _) = ground arith
any-false p (x ∷ xs) h (there _ _ k) = any-false p xs (ground arith) k

pub keep-Among {ℓ} :
    {A : Type ℓ} (p : A → Bool) {a : A} (xs : List A)
    → p a ≡ true
    → Among a xs
    → Among a (keep p xs)
keep-Among p [] h k = elim k [ ]
keep-Among p (x ∷ xs) h (here _) = rw h (here (keep p xs))
keep-Among p {a} (x ∷ xs) h (there _ _ k) =
    elim (p x) as (λ b. Among a (if b then x ∷ keep p xs else keep p xs)) [
      | true ↦ there x _ (keep-Among p xs h k)
      | false ↦ keep-Among p xs h k
    ]
