-- ===== src/Base/Hex.antt =====
-- encoding/hex: DecodeString and EncodeToString.
use Prim.Native.Nat.{ℕ, ◌+◌, ◌-◌, ◌*◌, ◌/◌, ◌%◌}
use mathlib.Core.Bool.{Bool, ◌&&◌}
use mathlib.Core.Option.{Option, none, some}
use mathlib.Core.List.{[], ◌∷◌}
use tfexplorer.Base.Tests.{leb, ltb, if◌then◌else◌}
use tfexplorer.Base.Text.{Text}

abbrev within : ℕ → ℕ → ℕ → Bool
within lo hi c = leb lo c && leb c hi

unfoldable pub hex_digit : ℕ → Option ℕ
hex_digit c =
    if within b'0' b'9' c
    then some (c - b'0')
    else if within b'a' b'f' c
    then some (c - b'a' + 10)
    else if within b'A' b'F' c
    then some (c - b'A' + 10)
    else none

abbrev byte : Option ℕ → Option ℕ → Option Text → Option Text
byte (some hi) (some lo) (some rest) = some ((hi * 16 + lo) ∷ rest)
byte _ _ _ = none

-- An odd length or another character is an error.
unfoldable pub decode_string : Text → Option Text
unfolding hex_digit
decode_string [] = some []
decode_string (c ∷ []) = none
decode_string (c ∷ c' ∷ s) = byte (hex_digit c) (hex_digit c') (decode_string s)

unfoldable pub digit_text : ℕ → ℕ
digit_text d = if ltb d 10 then b'0' + d else b'a' + (d - 10)

-- EncodeToString
unfoldable pub encode_to_string : Text → Text
unfolding digit_text
encode_to_string [] = []
encode_to_string (b ∷ s) = digit_text (b / 16) ∷ digit_text (b % 16) ∷ encode_to_string s
