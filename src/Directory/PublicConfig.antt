-- ===== src/Directory/PublicConfig.antt =====
-- PublicIface.Validate of models/generated/directory/directory.go.

use tfexplorer.Base.{Bool, true, false, ◌&&◌, ◌||◌, not, List, [], ◌∷◌, ◌==◌, leb, length, ℕ}
use tfexplorer.Base.Net.{is_to4, mask_bits}
use tfexplorer.Base.Text.{is_empty}
use tfexplorer.Models.Directory.{IfaceType, macvlan, vlan, unknown_iface, PublicIface}

abbrev is_nil : List ℕ → Bool
is_nil [] = true
is_nil (b ∷ bytes) = false

abbrev is_macvlan : IfaceType → Bool
is_macvlan macvlan = true
is_macvlan vlan = false
is_macvlan (unknown_iface n) = false

-- PublicIface.Validate: `true` is a nil error.
unfoldable pub validate_public_iface : PublicIface → Bool
validate_public_iface p =
    not (is_empty p.master)
    && leb (length p.master) 16
    && is_macvlan p.kind
    && not (is_nil p.ipv4.ip || is_nil p.ipv4.mask)
    && not (is_nil p.gw4)
    && not (is_nil p.ipv6.ip || is_nil p.ipv6.mask)
    && not (is_nil p.gw6)
    && is_to4 p.ipv4.ip
    && mask_bits p.ipv4.mask == 32
    && is_to4 p.gw4
    && not (is_to4 p.ipv6.ip)
    && mask_bits p.ipv6.mask == 128
    && not (is_to4 p.gw6)
