-- ===== src/Api/Create/Currencies/Slices.antt =====
-- Lemmas on the two ends of a list, for the loop that takes FreeTFT off.
use tfexplorer.Base.{ℕ, zero, suc, ◌+◌, ◌≡◌, refl, ap, List, [], ◌∷◌, ◌++◌, arith, length}
use tfexplorer.Api.Create.Currencies.{take, drop}

pub drop-append {ℓ} :
    {A : Type ℓ} (xs ys : List A) (k : ℕ) → drop (length xs + k) (xs ++ ys) ≡ drop k ys
drop-append [] ys k = let e : 0 + k ≡ k = omega arith in rw e
drop-append (x ∷ xs) ys k =
    let e : suc (length xs) + k ≡ suc (length xs + k) = omega arith in rw e (drop-append xs ys k)

pub take-length {ℓ} : {A : Type ℓ} (xs ys : List A) → take (length xs) (xs ++ ys) ≡ xs
take-length [] ys = refl
take-length (x ∷ xs) ys = ap (λ t. x ∷ t) (take-length xs ys)

pub take_all {ℓ} : {A : Type ℓ} (xs : List A) → take (length xs) xs ≡ xs
take_all [] = refl
take_all (x ∷ xs) = ap (λ t. x ∷ t) (take_all xs)

pub drop-length {ℓ} : {A : Type ℓ} (xs ys : List A) → drop (length xs) (xs ++ ys) ≡ ys
drop-length [] ys = refl
drop-length (x ∷ xs) ys = drop-length xs ys

pub drop-suc-length {ℓ} :
    {A : Type ℓ} (xs ys : List A) (x : A) → drop (suc (length xs)) (xs ++ x ∷ ys) ≡ ys
drop-suc-length [] ys x = refl
drop-suc-length (y ∷ xs) ys x = drop-suc-length xs ys x

pub drop-suc {ℓ} :
    {A : Type ℓ} (i : ℕ) (xs : List A) {c : A} {cs : List A}
    → drop i xs ≡ c ∷ cs
    → drop (suc i) xs ≡ cs
drop-suc zero (x ∷ xs) h = ground arith
drop-suc zero [] h = ground arith
drop-suc (suc i) [] h = ground arith
drop-suc (suc i) (x ∷ xs) {c} {cs} h = drop-suc i xs {c = c} {cs = cs} h
