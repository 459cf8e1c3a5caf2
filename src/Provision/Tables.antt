-- ===== src/Provision/Tables.antt =====
-- provision/builders/networkBuilder.go: the first half of generatePeers, which selects the public
-- node and fills the maps that the links are made from. A map that is keyed by the builder's own node
-- ID has at most one entry, so the order in which Go goes through it does not matter.
use tfexplorer.Base.{ℕ, Bool, true, false, ◌&&◌, not, List, [], ◌∷◌, ◌++◌, any, if◌then◌else◌}
use tfexplorer.Base.Text.{Text, is_empty}
use tfexplorer.Models.Workloads.{IpRange}
use tfexplorer.Program.{done, failed}
use tfexplorer.Provision.Dict.{Dict, put, get_or}
use tfexplorer.Provision.Network.{NetResource, AccessPoint, NetworkBuilder, Result, no_ipv4_node}
use tfexplorer.Provision.Address.{format_range, has_ipv4}

abbrev is_nil : List (List ℕ) → Bool
is_nil [] = true
is_nil (ip ∷ ips) = false

-- A node without public addresses.
unfoldable pub is_hidden : NetResource → Bool
is_hidden nr = is_nil nr.pub_endpoints

-- The public node that is to connect the hidden ones: the builder's node, if any node has IPv4.
unfoldable pub select_pub : NetworkBuilder → Result Text
select_pub n =
    if any is_hidden n.net_resources
    then (if any has_ipv4 n.net_resources && not (is_empty n.node_id)
        then done n.node_id
        else failed no_ipv4_node)
    else done []

abbrev pub no_range : IpRange
no_range = record { ip = []; mask = [] }

-- The loop over the resources that fills internalSubnets.
unfoldable pub internal_subnets : Text → List NetResource → Dict IpRange → Dict IpRange
unfolding put
internal_subnets id [] m = m
internal_subnets id (nr ∷ nrs) m = internal_subnets id nrs (put id nr.resource.iprange m)

-- The loop over the access points that fills externalSubnets, keyed by the text of a subnet.
unfoldable pub external_subnets :
    Dict IpRange → List AccessPoint → Dict (List IpRange) → Dict (List IpRange)
unfolding get_or put format_range
external_subnets internal [] m = m
external_subnets internal (p ∷ ps) m =
    let key = format_range (get_or internal p.node_id no_range) in
    external_subnets internal ps (put key (get_or m key [] ++ p.subnet ∷ []) m)

-- The access points of each node.
unfoldable pub access_points_of :
    List AccessPoint → Dict (List AccessPoint) → Dict (List AccessPoint)
unfolding get_or put
access_points_of [] m = m
access_points_of (p ∷ ps) m =
    access_points_of ps (put p.node_id (get_or m p.node_id [] ++ p ∷ []) m)

unfoldable pub hidden_subnets : Text → List NetResource → Dict IpRange → Dict IpRange
unfolding put is_hidden
hidden_subnets id [] m = m
hidden_subnets id (nr ∷ nrs) m =
    hidden_subnets id nrs (if is_hidden nr then put id nr.resource.iprange m else m)

unfoldable pub ipv6_only_subnets : Text → List NetResource → Dict IpRange → Dict IpRange
unfolding put is_hidden has_ipv4
ipv6_only_subnets id [] m = m
ipv6_only_subnets id (nr ∷ nrs) m =
    ipv6_only_subnets id nrs
      (if is_hidden nr then m else if not (has_ipv4 nr) then put id nr.resource.iprange m else m)

-- The local variables of generatePeers in its last loop.
pub record Tables : Type 0 where
  pub own_id : Text
  pub pub_nr : Text
  pub external : Dict (List IpRange)
  pub access : Dict (List AccessPoint)
  pub hidden : Dict IpRange
  pub ipv6_only : Dict IpRange

unfoldable pub tables : NetworkBuilder → Text → Tables
unfolding internal_subnets external_subnets access_points_of hidden_subnets ipv6_only_subnets
tables n pub_node = record {
  own_id = n.node_id;
  pub_nr = pub_node;
  external = external_subnets (internal_subnets n.node_id n.net_resources []) n.access_points [];
  access = access_points_of n.access_points [];
  hidden = hidden_subnets n.node_id n.net_resources [];
  ipv6_only = ipv6_only_subnets n.node_id n.net_resources [];
}
