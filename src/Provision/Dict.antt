-- ===== src/Provision/Dict.antt =====
-- The maps of generatePeers: Go maps by text, in the order of insertion.
use tfexplorer.Base.{◌≡◌, refl, List, [], ◌∷◌, arith, if◌then◌else◌}
use tfexplorer.Base.Text.{Text, text_eq, text_eq_refl, text_eq→≡}

abbrev pub Dict : Type 0 → Type 0
Dict V = List (Text × V)

-- m[k] = v
unfoldable pub put : {V : Type 0} → Text → V → Dict V → Dict V
put k v [] = (k, v) ∷ []
put k v ((j, w) ∷ m) = if text_eq j k then (k, v) ∷ m else (j, w) ∷ put k v m

-- m[k], which is a zero value for a missing key.
unfoldable pub get_or : {V : Type 0} → Dict V → Text → V → V
get_or [] k zero_value = zero_value
get_or ((j, w) ∷ m) k zero_value = if text_eq j k then w else get_or m k zero_value

pub get_or-put :
    {V : Type 0} (k j : Text) (v z : V) (m : Dict V)
    → get_or (put k v m) j z ≡ (if text_eq k j then v else get_or m j z)
unfolding put get_or
get_or-put k j v z [] = refl
get_or-put k j v z ((i, w) ∷ m) =
    ground
      (arith, get_or-put k j v z m, text_eq→≡ i k, text_eq→≡ i j, text_eq→≡ k j, text_eq_refl k)
