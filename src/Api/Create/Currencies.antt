-- ===== src/Api/Create/Currencies.antt =====
-- The loop of create that takes FreeTFT off the offered currencies. It ranges over the slice as it
-- was, and each `append(currencies[:i], currencies[i+1:]...)` moves elements in the array that both
-- slices share, so the model keeps that array beside the current length.
pub mod Slices
pub mod Filter
use tfexplorer.Base.{
  ℕ, zero, suc, ◌-◌, Bool, Option, none, some, List, [], ◌∷◌, ◌++◌, leb, if◌then◌else◌, length,
}
use tfexplorer.Base.Text.{Text, codes, text_eq}

abbrev pub free_tft : Text
free_tft = codes "FreeTFT"

abbrev pub take {ℓ} : {A : Type ℓ} → ℕ → List A → List A
take zero xs = []
take (suc n) [] = []
take (suc n) (x ∷ xs) = x ∷ take n xs

abbrev pub drop {ℓ} : {A : Type ℓ} → ℕ → List A → List A
drop zero xs = xs
drop (suc n) [] = []
drop (suc n) (x ∷ xs) = drop n xs

-- The array after `append(s[:i], s[i+1:]...)` on a slice `s` of the given length.
unfoldable pub close_gap : ℕ → ℕ → List Text → List Text
close_gap i len array =
    take i array ++ take (len - suc i) (drop (suc i) array) ++ drop (len - 1) array

-- The element that `range` reads.
abbrev pub is_free_at : ℕ → List Text → Bool
is_free_at i array = elim (drop i array) [ [] ↦ Bool.false | c ∷ cs ↦ text_eq c free_tft ]

-- The loop from index `i` on, for the rounds that are left: the array and the length of the slice.
-- `none` is the panic of `s[i+1:]` where i + 1 is above the length.
unfoldable pub remove_free : ℕ → ℕ → List Text → ℕ → Option (List Text × ℕ)
unfolding close_gap
remove_free zero i array len = some (array, len)
remove_free (suc rounds) i array len =
    let removed = remove_free rounds (suc i) (close_gap i len array) (len - 1) in
    let kept = remove_free rounds (suc i) array len in
    if is_free_at i array then (if leb (suc i) len then removed else none) else kept

abbrev pub slice : Option (List Text × ℕ) → Option (List Text)
slice none = none
slice (some (array, len)) = some (take len array)

-- The currencies that are handed to the escrow.
unfoldable pub offered_currencies : Bool → List Text → Option (List Text)
unfolding remove_free
offered_currencies some_paid currencies =
    if some_paid
    then slice (remove_free (length currencies) 0 currencies (length currencies))
    else some currencies
