-- ===== src/Provision/Address.antt =====
-- provision/builders/networkBuilder.go: the addresses of WireGuard links, and which addresses are
-- private.
use tfexplorer.Base.{
  ℕ, ◌+◌, ◌-◌, Bool, false, ◌&&◌, ◌||◌, not, Option, none, some, List, [], ◌∷◌, ◌==◌, leb, ltb,
  length, any, get_elem?, if◌then◌else◌,
}
use tfexplorer.Base.Net.{
  to4, is_to4, ipv4, cidr_mask, mask_ones, mask_bits, contains, format_ip_net,
}
use tfexplorer.Base.Text.{Text}
use tfexplorer.Models.Workloads.{IpRange}
use tfexplorer.Program.{done, failed}
use tfexplorer.Provision.Network.{NetResource, Result, panicked, ◌>>=◌}
use Prim.Native.Nat.{bit_and}

-- IPRange.String
unfoldable pub format_range : IpRange → Text
format_range r = format_ip_net r.ip r.mask

-- ip[len(ip)-k], which panics out of range.
unfoldable pub byte_from_end : ℕ → List ℕ → Result ℕ
byte_from_end k ip = elim (get_elem? ip (length ip - k)) [
  | none ↦ failed panicked
  | some b ↦ if ltb (length ip) k then failed panicked else done b
]

abbrev pub link_range : ℕ → ℕ → List ℕ → IpRange
link_range a b mask = record { ip = ipv4 100 64 a b; mask = mask }

-- wgIP
unfoldable pub wg_ip : IpRange → Result IpRange
unfolding byte_from_end
wg_ip subnet = do
  a ← byte_from_end 3 subnet.ip
  b ← byte_from_end 2 subnet.ip
  done (link_range a b (cidr_mask 32))

-- wgSubnet
unfoldable pub wg_subnet : IpRange → Result IpRange
unfolding byte_from_end
wg_subnet subnet = do
  a ← byte_from_end 3 subnet.ip
  b ← byte_from_end 2 subnet.ip
  done (link_range a b (cidr_mask (mask_ones subnet.mask + 8)))

-- isIPv4Subnet
unfoldable pub is_ipv4_subnet : IpRange → Bool
is_ipv4_subnet n = if not (mask_bits n.mask == 32) then false else leb (mask_ones n.mask) 30

-- isCGN
unfoldable pub is_cgn : IpRange → Bool
is_cgn subnet = contains (100 ∷ 64 ∷ 0 ∷ 0 ∷ []) (255 ∷ 192 ∷ 0 ∷ 0 ∷ []) subnet.ip

-- hasIPv4
unfoldable pub has_ipv4 : NetResource → Bool
has_ipv4 n = any is_to4 n.pub_endpoints

abbrev pub first_byte : List ℕ → ℕ
first_byte [] = 0
first_byte (a ∷ ip) = a

abbrev second_byte : List ℕ → ℕ
second_byte [] = 0
second_byte (a ∷ ip) = first_byte ip

abbrev third_byte : List ℕ → ℕ
third_byte [] = 0
third_byte (a ∷ ip) = second_byte ip

abbrev all_zero_but_last : List ℕ → ℕ → Bool
all_zero_but_last [] l = false
all_zero_but_last (a ∷ []) l = a == l
all_zero_but_last (a ∷ b ∷ ip) l = a == 0 && all_zero_but_last (b ∷ ip) l

abbrev is_sixteen : List ℕ → Bool
is_sixteen ip = length ip == 16

-- ip.IsLoopback()
abbrev loopback_as : List ℕ → Option (List ℕ) → Bool
loopback_as ip (some v4) = first_byte v4 == 127
loopback_as ip none = is_sixteen ip && all_zero_but_last ip 1

-- ip.IsUnspecified()
abbrev unspecified_as : List ℕ → Option (List ℕ) → Bool
unspecified_as ip (some v4) = all_zero_but_last v4 0
unspecified_as ip none = is_sixteen ip && all_zero_but_last ip 0

-- ip.IsMulticast()
abbrev multicast_as : List ℕ → Option (List ℕ) → Bool
multicast_as ip (some v4) = leb 224 (first_byte v4) && leb (first_byte v4) 239
multicast_as ip none = is_sixteen ip && first_byte ip == 255

-- ip.IsLinkLocalUnicast()
abbrev link_local_as : List ℕ → Option (List ℕ) → Bool
link_local_as ip (some v4) = first_byte v4 == 169 && second_byte v4 == 254
link_local_as ip none = is_sixteen ip && first_byte ip == 254 && bit_and (second_byte ip) 192 == 128

-- ip.IsLinkLocalMulticast()
abbrev link_local_multicast_as : List ℕ → Option (List ℕ) → Bool
link_local_multicast_as ip (some v4) =
    first_byte v4 == 224 && second_byte v4 == 0 && third_byte v4 == 0
link_local_multicast_as ip none =
    is_sixteen ip && first_byte ip == 255 && bit_and (second_byte ip) 15 == 2

-- ip.Equal(net.IPv4bcast)
abbrev broadcast_as : Option (List ℕ) → Bool
broadcast_as (some (a ∷ b ∷ c ∷ d ∷ [])) = a == 255 && b == 255 && c == 255 && d == 255
broadcast_as _ = false

-- ip.IsGlobalUnicast()
unfoldable pub is_global_unicast : List ℕ → Bool
unfolding to4
is_global_unicast ip =
    (length ip == 4 || length ip == 16)
    && not (broadcast_as (to4 ip))
    && not (unspecified_as ip (to4 ip))
    && not (loopback_as ip (to4 ip))
    && not (multicast_as ip (to4 ip))
    && not (link_local_as ip (to4 ip))

abbrev zeros14 : List ℕ
zeros14 = 0 ∷ 0 ∷ 0 ∷ 0 ∷ 0 ∷ 0 ∷ 0 ∷ 0 ∷ 0 ∷ 0 ∷ 0 ∷ 0 ∷ 0 ∷ 0 ∷ []

abbrev ones_of_v6 : List ℕ
ones_of_v6 =
    255 ∷ 255 ∷ 255 ∷ 255 ∷ 255 ∷ 255 ∷ 255 ∷ 255 ∷ 255 ∷ 255 ∷ 255 ∷ 255 ∷ 255 ∷ 255 ∷ 255 ∷ 255
    ∷ []

abbrev loopback_v6 : List ℕ
loopback_v6 = 0 ∷ 0 ∷ 0 ∷ 0 ∷ 0 ∷ 0 ∷ 0 ∷ 0 ∷ 0 ∷ 0 ∷ 0 ∷ 0 ∷ 0 ∷ 0 ∷ 0 ∷ 1 ∷ []

-- The private blocks, as ParseCIDR reads them: address and mask.
abbrev private_blocks : List (List ℕ × List ℕ)
private_blocks =
    (127 ∷ 0 ∷ 0 ∷ 0 ∷ [], 255 ∷ 0 ∷ 0 ∷ 0 ∷ [])
    ∷ (10 ∷ 0 ∷ 0 ∷ 0 ∷ [], 255 ∷ 0 ∷ 0 ∷ 0 ∷ [])
    ∷ (172 ∷ 16 ∷ 0 ∷ 0 ∷ [], 255 ∷ 240 ∷ 0 ∷ 0 ∷ [])
    ∷ (192 ∷ 168 ∷ 0 ∷ 0 ∷ [], 255 ∷ 255 ∷ 0 ∷ 0 ∷ [])
    ∷ (169 ∷ 254 ∷ 0 ∷ 0 ∷ [], 255 ∷ 255 ∷ 0 ∷ 0 ∷ [])
    ∷ (loopback_v6, ones_of_v6)
    ∷ (254 ∷ 128 ∷ zeros14, 255 ∷ 192 ∷ zeros14)
    ∷ (252 ∷ 0 ∷ zeros14, 254 ∷ 0 ∷ zeros14)
    ∷ []

-- isPrivateIP
unfoldable pub is_private_ip : List ℕ → Bool
unfolding to4 contains
is_private_ip ip =
    loopback_as ip (to4 ip)
    || link_local_as ip (to4 ip)
    || link_local_multicast_as ip (to4 ip)
    || any (λ block. contains block.0 block.1 ip) private_blocks
