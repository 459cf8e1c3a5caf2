-- ===== src/Base/Net.antt =====
-- The package net: addresses as bytes, masks, networks and their text. A nil slice is the empty list.
use Prim.Native.Nat.{ℕ, suc, ◌+◌, ◌-◌, ◌*◌, ◌/◌, ◌%◌, ◌^◌, bit_and}
use mathlib.Core.Bool.{Bool, true, false, ◌&&◌, ◌||◌}
use mathlib.Core.Option.{Option, none, some}
use mathlib.Core.List.{List, [], ◌∷◌, ◌++◌}
use tfexplorer.Base.Tests.{ltb, leb, ◌==◌, if◌then◌else◌}
use tfexplorer.Base.Lists.{length, all, drop, take}
use tfexplorer.Base.Text.{Text, codes, is_empty}
use tfexplorer.Base.Decimal.{print}
use tfexplorer.Base.Hex.{encode_to_string, digit_text}

abbrev is_zero_byte : ℕ → Bool
is_zero_byte b = b == 0

-- The bytes in front of an IPv4 address in 16 bytes.
unfoldable pub v4_in_v6 : List ℕ → Bool
v4_in_v6 (a ∷ b ∷ c ∷ d ∷ e ∷ f ∷ g ∷ h ∷ i ∷ j ∷ k ∷ l ∷ w ∷ x ∷ y ∷ z ∷ []) =
    all is_zero_byte (a ∷ b ∷ c ∷ d ∷ e ∷ f ∷ g ∷ h ∷ i ∷ j ∷ []) && k == 255 && l == 255
v4_in_v6 _ = false

-- ip.To4() != nil
unfoldable pub is_to4 : List ℕ → Bool
unfolding v4_in_v6
is_to4 ip = length ip == 4 || v4_in_v6 ip

-- The last byte of a mask that is not 255, and a byte of 1s in front.
abbrev is_last_byte : ℕ → Bool
is_last_byte b =
    b == 0 || b == 128 || b == 192 || b == 224 || b == 240 || b == 248 || b == 252 || b == 254

-- net.simpleMaskLength(m) != -1: the 1s of the mask come first.
unfoldable pub is_simple_mask : List ℕ → Bool
is_simple_mask [] = true
is_simple_mask (b ∷ m) =
    let rest = is_simple_mask m in b == 255 && rest || is_last_byte b && all is_zero_byte m

-- The second result of m.Size(): 0 for a mask that is not simple.
unfoldable pub mask_bits : List ℕ → ℕ
unfolding is_simple_mask
mask_bits m = if is_simple_mask m then 8 * length m else 0

-- The number of 1s in front of a byte.
abbrev leading_ones : ℕ → ℕ
leading_ones b =
    if b == 255
    then 8
    else if leb 254 b
    then 7
    else if leb 252 b
    then 6
    else if leb 248 b
    then 5
    else if leb 240 b
    then 4
    else if leb 224 b
    then 3
    else if leb 192 b
    then 2
    else if leb 128 b
    then 1
    else 0

abbrev count_ones : List ℕ → ℕ
count_ones [] = 0
count_ones (b ∷ m) = leading_ones b + count_ones m

-- The first result of m.Size(): 0 for a mask that is not simple.
unfoldable pub mask_ones : List ℕ → ℕ
unfolding is_simple_mask
mask_ones m = if is_simple_mask m then count_ones m else 0

-- A byte of a mask with n 1s to go.
abbrev mask_byte : ℕ → ℕ
mask_byte n = elim (leb 8 n) [ true ↦ 255 | false ↦ 255 - 255 / 2 ^ n ]

-- net.CIDRMask(ones, 32), which is nil above 32.
unfoldable pub cidr_mask : ℕ → List ℕ
cidr_mask ones =
    if leb ones 32
    then mask_byte ones ∷ mask_byte (ones - 8) ∷ mask_byte (ones - 16) ∷ mask_byte (ones - 24) ∷ []
    else []

-- net.IPv4(a, b, c, d)
unfoldable pub ipv4 : ℕ → ℕ → ℕ → ℕ → List ℕ
ipv4 a b c d = 0 ∷ 0 ∷ 0 ∷ 0 ∷ 0 ∷ 0 ∷ 0 ∷ 0 ∷ 0 ∷ 0 ∷ 255 ∷ 255 ∷ a ∷ b ∷ c ∷ d ∷ []

-- ip.To4(), where `none` is nil.
unfoldable pub to4 : List ℕ → Option (List ℕ)
unfolding v4_in_v6
to4 ip = if length ip == 4 then some ip else if v4_in_v6 ip then some (drop 12 ip) else none

-- ip.To16() != nil
unfoldable pub is_to16 : List ℕ → Bool
is_to16 ip = length ip == 4 || length ip == 16

abbrev join : ℕ → List Text → Text
join c [] = []
join c (s ∷ []) = s
join c (s ∷ t ∷ ts) = s ++ (c ∷ join c (t ∷ ts))

abbrev print_all : List ℕ → List Text
print_all [] = []
print_all (b ∷ bs) = print b ∷ print_all bs

-- The 16-bit groups of an address.
abbrev groups : List ℕ → List ℕ
groups [] = []
groups (a ∷ []) = []
groups (a ∷ b ∷ bs) = (a * 256 + b) ∷ groups bs

-- A group without zeros in front.
abbrev hex_group : ℕ → Text
hex_group g =
    if ltb g 16
    then digit_text g ∷ []
    else if ltb g 256
    then digit_text (g / 16) ∷ digit_text (g % 16) ∷ []
    else if ltb g 4096
    then digit_text (g / 256) ∷ digit_text (g / 16 % 16) ∷ digit_text (g % 16) ∷ []
    else digit_text (g / 4096)
      ∷ digit_text (g / 256 % 16)
      ∷ digit_text (g / 16 % 16)
      ∷ digit_text (g % 16)
      ∷ []

abbrev hex_groups : List ℕ → List Text
hex_groups [] = []
hex_groups (g ∷ gs) = hex_group g ∷ hex_groups gs

abbrev zero_run : List ℕ → ℕ
zero_run [] = 0
zero_run (g ∷ gs) = if g == 0 then suc (zero_run gs) else 0

-- The place and the length of the first of the longest runs of zero groups.
abbrev longest_run : ℕ → List ℕ → ℕ × ℕ → ℕ × ℕ
longest_run i [] best = best
longest_run i (g ∷ gs) best =
    longest_run (suc i) gs (if ltb best.1 (zero_run (g ∷ gs)) then (i, zero_run (g ∷ gs)) else best)

-- The run is written "::", unless it is a single group.
abbrev shorten : List ℕ → ℕ × ℕ → Text
shorten gs run =
    if ltb run.1 2
    then join b':' (hex_groups gs)
    else join b':' (hex_groups (take run.0 gs))
      ++ (b':' ∷ b':' ∷ join b':' (hex_groups (drop (run.0 + run.1) gs)))

abbrev format_v6 : List ℕ → Text
format_v6 ip =
    if length ip == 16
    then shorten (groups ip) (longest_run 0 (groups ip) (0, 0))
    else b'?' ∷ encode_to_string ip

abbrev format_as : List ℕ → Option (List ℕ) → Text
format_as ip none = format_v6 ip
format_as ip (some v4) = join b'.' (print_all v4)

-- ip.String()
unfoldable pub format_ip : List ℕ → Text
unfolding to4 digit_text encode_to_string print
format_ip ip = if is_empty ip then codes "<nil>" else format_as ip (to4 ip)

-- networkNumberAndMask, where `none` stands for a nil number or mask.
abbrev number_and_mask_of : List ℕ → List ℕ → Option (List ℕ) → Option (List ℕ × List ℕ)
number_and_mask_of ip m (some v4) =
    if length m == 4 then some (v4, m) else if length m == 16 then some (v4, drop 12 m) else none
number_and_mask_of ip m none = if length ip == 16 && length m == 16 then some (ip, m) else none

unfoldable pub number_and_mask : List ℕ → List ℕ → Option (List ℕ × List ℕ)
unfolding to4
number_and_mask ip m = number_and_mask_of ip m (to4 ip)

abbrev format_mask : List ℕ → Text
format_mask m = if is_empty m then codes "<nil>" else encode_to_string m

abbrev format_pair : Option (List ℕ × List ℕ) → Text
format_pair none = codes "<nil>"
format_pair (some (nn, m)) =
    format_ip nn ++ (b'/' ∷ (if is_simple_mask m then print (mask_ones m) else format_mask m))

-- n.String() of a net.IPNet
unfoldable pub format_ip_net : List ℕ → List ℕ → Text
unfolding number_and_mask format_ip mask_ones
format_ip_net ip m = format_pair (number_and_mask ip m)

abbrev masked_eq : List ℕ → List ℕ → List ℕ → Bool
masked_eq (n ∷ nn) (b ∷ m) (i ∷ ip) = bit_and n b == bit_and i b && masked_eq nn m ip
masked_eq _ _ _ = true

abbrev v4_or_same : List ℕ → Option (List ℕ) → List ℕ
v4_or_same ip none = ip
v4_or_same ip (some v4) = v4

abbrev contains_in : Option (List ℕ × List ℕ) → List ℕ → Bool
contains_in none ip = length ip == 0
contains_in (some (nn, m)) ip = length ip == length nn && masked_eq nn m ip

-- n.Contains(ip) of a net.IPNet
unfoldable pub contains : List ℕ → List ℕ → List ℕ → Bool
unfolding number_and_mask to4
contains ip m x = contains_in (number_and_mask ip m) (v4_or_same x (to4 x))
