-- ===== src/Provision/Peers.antt =====
-- provision/builders/networkBuilder.go: generatePeers, which links every node of a network to the
-- others.
pub mod Routes
pub mod Links
pub mod Others
pub mod Points
pub mod Mesh
pub mod Ends
pub mod Termination
use tfexplorer.Base.{
  ℕ, zero, suc, Bool, true, false, ◌&&◌, not, Option, none, some, List, [], ◌∷◌, ◌++◌, any, find,
  if◌then◌else◌,
}
use tfexplorer.Base.Text.{Text, codes, is_empty, text_eq}
use tfexplorer.Base.Decimal.{format_int}
use tfexplorer.Base.Net.{is_to4, is_to16, format_ip}
use tfexplorer.Models.Workloads.{IpRange, WireguardPeer, NetworkNetResource}
use tfexplorer.Program.{done, failed}
use tfexplorer.Provision.Dict.{Dict, put, get_or}
use tfexplorer.Provision.Network.{
  NetResource, AccessPoint, NetworkBuilder, Result, no_ipv4_node, stuck, ◌>>=◌,
}
use tfexplorer.Provision.Tables.{is_hidden, select_pub, Tables, tables}
use tfexplorer.Provision.Address.{format_range, wg_ip, has_ipv4}

-- A subnet with the address of its node in the links.
unfoldable pub with_link : IpRange → Result (List IpRange)
unfolding wg_ip
with_link r = do wg ← wg_ip r; done (r ∷ wg ∷ [])

unfoldable pub with_links : List IpRange → Result (List IpRange)
unfolding with_link
with_links [] = done []
with_links (r ∷ rs) = do pair ← with_link r; rest ← with_links rs; done (pair ++ rest)

-- The subnets of a map; those of `skipped` are left out.
unfoldable pub subnets_but : Option Text → Dict IpRange → List IpRange
subnets_but skipped [] = []
subnets_but none ((owner, r) ∷ m) = r ∷ subnets_but none m
subnets_but (some id) ((owner, r) ∷ m) =
    let rest = subnets_but (some id) m in if text_eq owner id then rest else r ∷ rest

-- The loop over allowedIPs, which grows while it runs: what is read, and what is still to be read.
unfoldable pub extend :
    ℕ → Dict (List IpRange) → List IpRange → List IpRange → Result (List IpRange)
unfolding get_or format_range with_links
extend fuel external seen [] = done seen
extend zero external seen (r ∷ rs) = failed stuck
extend (suc fuel) external seen (r ∷ rs) = do
  more ← with_links (get_or external (format_range r) [])
  extend fuel external (seen ++ r ∷ []) (rs ++ more)

-- fmt.Sprintf("%s:%d", ip, port)
unfoldable pub endpoint_v4 : List ℕ → ℕ → Text
unfolding format_ip format_int
endpoint_v4 ip port = format_ip ip ++ (b':' ∷ format_int port)

-- fmt.Sprintf("[%s]:%d", ip, port)
unfoldable pub endpoint_v6 : List ℕ → ℕ → Text
unfolding format_ip format_int
endpoint_v6 ip port = b'[' ∷ (format_ip ip ++ (b']' ∷ b':' ∷ format_int port))

abbrev pub is_v6_only : List ℕ → Bool
is_v6_only ip = not (is_to4 ip) && is_to16 ip

abbrev pub v4_text : Option (List ℕ) → ℕ → Text
v4_text none port = []
v4_text (some ip) port = endpoint_v4 ip port

abbrev pub v6_text : Option (List ℕ) → Text → ℕ → Text
v6_text none fallback port = fallback
v6_text (some ip) fallback port = endpoint_v6 ip port

-- The first IPv4 address of a node with its port, or no text.
unfoldable pub first_v4 : NetResource → Text
unfolding endpoint_v4
first_v4 nr = v4_text (find is_to4 nr.pub_endpoints) nr.resource.wireguard_listen_port

-- The first IPv6 address of a node with its port, else its first IPv4 address.
unfoldable pub first_v6 : NetResource → Text
unfolding first_v4 endpoint_v6
first_v6 nr =
    v6_text (find is_v6_only nr.pub_endpoints) (first_v4 nr) nr.resource.wireguard_listen_port

-- What a hidden node routes to the public node besides its own subnet, and what a public node does.
unfoldable pub routed_by_hidden : Tables → NetResource → NetResource → List IpRange
unfolding subnets_but
routed_by_hidden t nr onr =
    if text_eq onr.resource.node_id t.pub_nr
    then subnets_but (some nr.resource.node_id) t.hidden ++ subnets_but none t.ipv6_only
    else []

unfoldable pub routed_by_public : Tables → NetResource → List IpRange
unfolding subnets_but
routed_by_public t onr =
    if text_eq onr.resource.node_id t.pub_nr then subnets_but none t.hidden else []

-- A peer of a node for another node, with the routes besides the other node's own subnet.
unfoldable pub linked :
    ℕ → Tables → NetResource → List IpRange → Text → List IpRange → Result (Option WireguardPeer)
unfolding with_links extend
linked fuel t onr own endpoint routes = do
  routed ← with_links routes
  allowed ← extend fuel t.external [] (own ++ routed)
  done (
      some (record {
        public_key = onr.resource.wireguard_public_key;
        allowed_iprange = allowed;
        endpoint = endpoint;
        iprange = onr.resource.iprange;
      }))

-- The peer for another node by whether either is hidden or has IPv4; `none` where no link is made.
unfoldable pub mesh_peer :
    ℕ → Tables → NetResource → NetResource → List IpRange → Result (Option WireguardPeer)
unfolding linked routed_by_hidden routed_by_public first_v4 first_v6 is_hidden has_ipv4
mesh_peer fuel t nr onr own =
    if is_hidden nr
    then (if not (has_ipv4 onr)
        then done none
        else linked fuel t onr own (first_v4 onr) (routed_by_hidden t nr onr))
    else if is_hidden onr && has_ipv4 nr
    then linked fuel t onr own [] []
    else if not (has_ipv4 nr) && is_hidden onr
    then done none
    else linked fuel t onr own (first_v6 onr) (routed_by_public t onr)

-- The body of the loop over the other nodes, of which it skips the builder's own.
unfoldable pub peer_for : ℕ → Tables → NetResource → NetResource → Result (Option WireguardPeer)
unfolding with_link mesh_peer
peer_for fuel t nr onr =
    if text_eq t.own_id onr.resource.node_id
    then done none
    else with_link onr.resource.iprange >>= mesh_peer fuel t nr onr

abbrev pub add_peer : Option WireguardPeer → List WireguardPeer → List WireguardPeer
add_peer none ps = ps
add_peer (some p) ps = p ∷ ps

unfoldable pub peers_for : ℕ → Tables → NetResource → List NetResource → Result (List WireguardPeer)
unfolding peer_for
peers_for fuel t nr [] = done []
peers_for fuel t nr (onr ∷ onrs) = do
  p ← peer_for fuel t nr onr
  rest ← peers_for fuel t nr onrs
  done (add_peer p rest)

-- The peers for the access points of a node.
unfoldable pub access_peers : List AccessPoint → Result (List WireguardPeer)
unfolding with_link
access_peers [] = done []
access_peers (ea ∷ eas) = do
  allowed ← with_link ea.subnet
  rest ← access_peers eas
  done (
      record {
        public_key = ea.wg_public_key;
        allowed_iprange = allowed;
        endpoint = [];
        iprange = ea.subnet;
      }
      ∷ rest)

abbrev pub with_peers : NetResource → List WireguardPeer → NetResource
with_peers nr peers =
    let resource : NetworkNetResource = record nr.resource { peers = peers } in
    record nr { resource = resource }

-- The last loop, over the nodes, with all nodes beside it.
unfoldable pub link_nodes :
    ℕ → Tables → List NetResource → List NetResource → Result (List NetResource)
unfolding peers_for access_peers get_or
link_nodes fuel t everyone [] = done []
link_nodes fuel t everyone (nr ∷ nrs) = do
  mesh ← peers_for fuel t nr everyone
  access ← access_peers (get_or t.access nr.resource.node_id [])
  rest ← link_nodes fuel t everyone nrs
  done (with_peers nr (mesh ++ access) ∷ rest)

-- generatePeers: the resources with their new peers. What an error leaves
-- is in Provision.Left.
unfoldable pub generate_peers : ℕ → NetworkBuilder → Result (List NetResource)
unfolding select_pub tables link_nodes
generate_peers fuel n = do
  pub_node ← select_pub n
  link_nodes fuel (tables n pub_node) n.net_resources n.net_resources
