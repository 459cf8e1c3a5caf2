-- ===== src/Provision/Nodes.antt =====
-- provision/builders/networkBuilder.go: AddNode with the choice of a port and the public addresses
-- of a node.
pub mod Ports
use tfexplorer.Base.{
  ℕ, zero, suc, ◌+◌, Bool, true, false, ◌&&◌, ◌||◌, not, Option, none, some, List, [], ◌∷◌, ◌++◌,
  ◌==◌, any, if◌then◌else◌,
}
use tfexplorer.Base.Text.{Text, is_empty}
use tfexplorer.Base.Hex.{encode_to_string}
use tfexplorer.Models.Workloads.{IpRange, Network, NetworkNetResource}
use tfexplorer.Models.Directory.{Node}
use tfexplorer.Program.{Outcome, done, failed}
use tfexplorer.Provision.Network.{
  NetResource, NetworkBuilder, NetworkError, Result, empty_subnet, invalid_subnet, no_port, no_key,
  bad_node_id, not_encrypted, no_endpoints, stuck, ◌>>=◌, ◌>>◌,
}
use tfexplorer.Provision.Address.{is_global_unicast, is_private_ip}
use tfexplorer.Provision.Peers.{generate_peers}
use tfexplorer.Provision.Left.{resources_left}

-- What the builder uses of a node as the grid's nodes know it: the IPv4 and IPv6 of its public
-- configuration, and the addresses of its interfaces.
pub record ZosNode : Type 0 where
  pub public_config : Option (IpRange × IpRange)
  pub ifaces : List (List IpRange)

-- What the builder asks of the explorer, of keys, of zos and of the random numbers. A request for a
-- node is told from other requests in one call of a method by its number.
pub record NetEnv : Type 0 where
  pub node_get : ℕ → Text → Option Node
  pub from_schema : Node → ZosNode
  pub parse_ip_net : Text → Option IpRange
  pub generate_private_key : Option Text
  pub public_key : Text → Text
  pub zero_key : Text
  pub key_from_id : Text → Option Text
  pub encrypt : Text → Text → Option Text
  pub intn_6000 : ℕ → ℕ
  pub subnet_text : IpRange → Text
  pub decode_network : Text → Option Network
  pub encode_network : Network → Text

abbrev pub or_error : {A : Type 0} → NetworkError → Option A → Result A
or_error e none = failed e
or_error e (some a) = done a

-- isIn
unfoldable pub is_in : List ℕ → ℕ → Bool
is_in l i = any (λ x. i == x) l

-- The loop of pickPort from the k-th random number on.
unfoldable pub pick : NetEnv → ℕ → List ℕ → ℕ → Result ℕ
unfolding is_in
pick env zero used k = failed stuck
pick env (suc fuel) used k =
    let rest = pick env fuel used (suc k) in
    if is_in used (env.intn_6000 k + 2000) then rest else done (env.intn_6000 k + 2000)

-- pickPort
unfoldable pub pick_port : NetEnv → ℕ → NetworkBuilder → Result ℕ
unfolding pick
pick_port env fuel n = do
  node ← or_error no_port (env.node_get 0 n.node_id)
  pick env fuel node.wg_ports 0

abbrev is_nil_ip : List ℕ → Bool
is_nil_ip [] = true
is_nil_ip (b ∷ ip) = false

-- The test on an address by which a node is reached from everywhere.
unfoldable pub is_public_address : IpRange → Bool
unfolding is_global_unicast is_private_ip
is_public_address r = is_global_unicast r.ip && not (is_private_ip r.ip)

abbrev if_public : IpRange → List IpRange
if_public r = if not (is_nil_ip r.ip) && is_public_address r then r ∷ [] else []

unfoldable pub public_addresses : List IpRange → List IpRange
unfolding is_public_address
public_addresses [] = []
public_addresses (r ∷ rs) =
    let rest = public_addresses rs in if not (is_public_address r) then rest else r ∷ rest

unfoldable pub iface_addresses : List (List IpRange) → List IpRange
unfolding public_addresses
iface_addresses [] = []
iface_addresses (addrs ∷ rest) = public_addresses addrs ++ iface_addresses rest

abbrev addresses_of : Option (IpRange × IpRange) → List (List IpRange) → List IpRange
addresses_of (some (v4, v6)) ifaces = if_public v4 ++ if_public v6
addresses_of none ifaces = iface_addresses ifaces

-- getEndPointAddrs, as the k-th request for a node.
unfoldable pub get_end_point_addrs : NetEnv → ℕ → Text → Result (List IpRange)
unfolding is_public_address iface_addresses
get_end_point_addrs env k id = do
  schema_node ← or_error no_endpoints (env.node_get k id)
  done (
      addresses_of (env.from_schema schema_node).public_config (env.from_schema schema_node).ifaces)

abbrev pub ips_of : List IpRange → List (List ℕ)
ips_of [] = []
ips_of (r ∷ rs) = r.ip ∷ ips_of rs

abbrev port_or_pick : NetEnv → ℕ → NetworkBuilder → ℕ → Result ℕ
port_or_pick env fuel n port = if port == 0 then pick_port env fuel n else done port

-- What AddNode does before it changes the resources.
unfoldable pub new_resource : NetEnv → ℕ → NetworkBuilder → Text → ℕ → Bool → Result NetResource
unfolding pick_port get_end_point_addrs
new_resource env fuel n subnet port force_hidden = do
  (if is_empty subnet then failed empty_subnet else done tt)
  ipnet ← or_error invalid_subnet (env.parse_ip_net subnet)
  port' ← port_or_pick env fuel n port
  sk ← or_error no_key env.generate_private_key
  pk ← or_error bad_node_id (env.key_from_id n.node_id)
  encrypted ← or_error not_encrypted (env.encrypt sk pk)
  addrs ← get_end_point_addrs env (if port == 0 then 1 else 0) n.node_id
  done (record {
    resource = record {
      node_id = n.node_id;
      wireguard_private_key_encrypted = encode_to_string encrypted;
      wireguard_public_key = env.public_key sk;
      wireguard_listen_port = port';
      iprange = ipnet;
      peers = [];
    };
    pub_endpoints = if not force_hidden then ips_of addrs else [];
  })

-- The builder after generatePeers, with what it leaves where it fails.
abbrev pub settle_peers :
    {A : Type 0}
    → NetworkBuilder
    → List NetResource
    → Result (List NetResource)
    → Result A
    → NetworkBuilder × Result A
settle_peers n left (done nrs) answer = (record n { net_resources = nrs }, answer)
settle_peers n left (failed e) answer = (record n { net_resources = left }, failed e)

abbrev pub with_resource : NetworkBuilder → NetResource → NetworkBuilder
with_resource n nr = record n { net_resources = n.net_resources ++ nr ∷ [] }

abbrev pub attach : ℕ → NetworkBuilder → Result NetResource → NetworkBuilder × Result (Unit {0})
attach fuel n (failed e) = (n, failed e)
attach fuel n (done nr) =
    settle_peers (with_resource n nr) (resources_left fuel (with_resource n nr))
      (generate_peers fuel (with_resource n nr)) (done tt)

abbrev pub for_node : NetworkBuilder → Text → NetworkBuilder
for_node n id = record n { node_id = id }

-- AddNode: the builder afterwards, and the answer.
unfoldable pub add_node :
    NetEnv → ℕ → NetworkBuilder → Text → Text → ℕ → Bool → NetworkBuilder × Result (Unit {0})
unfolding new_resource generate_peers resources_left
add_node env fuel n id subnet port force_hidden =
    attach fuel (for_node n id) (new_resource env fuel (for_node n id) subnet port force_hidden)
