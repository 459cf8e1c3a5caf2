-- ===== src/Provision/Load.antt =====
-- provision/builders/networkBuilder.go: Save and LoadNetworkBuilder, with the endpoints and access
-- points that are worked out again.
pub mod Kept
use tfexplorer.Base.{
  ℕ, suc, Bool, true, false, ◌&&◌, not, Option, none, some, List, [], ◌∷◌, ◌++◌, any, if◌then◌else◌,
}
use tfexplorer.Base.Text.{Text, is_empty, text_eq}
use tfexplorer.Models.Workloads.{WireguardPeer, Network}
use tfexplorer.Program.{Outcome, done, failed}
use tfexplorer.Provision.Network.{
  NetResource, AccessPoint, NetworkBuilder, Result, bad_network, ◌>>=◌, ◌>>◌,
}
use tfexplorer.Provision.Tables.{is_hidden}
use tfexplorer.Provision.Nodes.{NetEnv, or_error, ips_of, get_end_point_addrs}

-- NetworkBuilder.Save: what is written.
unfoldable pub save_network : NetEnv → NetworkBuilder → Text
save_network env n = env.encode_network n.network

-- The loop of setPubEndpoints that asks for the addresses, from the k-th resource on.
unfoldable pub fetch_endpoints : NetEnv → ℕ → List NetResource → Result (List NetResource)
unfolding get_end_point_addrs
fetch_endpoints env k [] = done []
fetch_endpoints env k (nr ∷ nrs) = do
  addrs ← get_end_point_addrs env k nr.resource.node_id
  rest ← fetch_endpoints env (suc k) nrs
  done (record nr { pub_endpoints = ips_of addrs } ∷ rest)

unfoldable pub unreached : List WireguardPeer → List Text
unreached [] = []
unreached (p ∷ ps) =
    let rest = unreached ps in if is_empty p.endpoint then p.public_key ∷ rest else rest

-- hiddenNodes: the keys of the peers without an endpoint, of nodes with public addresses.
unfoldable pub hidden_nodes : List NetResource → List Text
unfolding unreached is_hidden
hidden_nodes [] = []
hidden_nodes (nr ∷ nrs) =
    let rest = hidden_nodes nrs in
    if is_hidden nr then rest else unreached nr.resource.peers ++ rest

abbrev pub has_key : List Text → Text → Bool
has_key keys key = any (λ k. text_eq k key) keys

unfoldable pub hide_nodes : List Text → List NetResource → List NetResource
hide_nodes keys [] = []
hide_nodes keys (nr ∷ nrs) =
    (if has_key keys nr.resource.wireguard_public_key then record nr { pub_endpoints = [] } else nr)
    ∷ hide_nodes keys nrs

-- setPubEndpoints
unfoldable pub set_pub_endpoints : NetEnv → List NetResource → Result (List NetResource)
unfolding fetch_endpoints hidden_nodes hide_nodes
set_pub_endpoints env nrs = do
  fetched ← fetch_endpoints env 0 nrs
  done (hide_nodes (hidden_nodes fetched) fetched)

abbrev pub node_keys : List NetResource → List Text
node_keys [] = []
node_keys (nr ∷ nrs) = nr.resource.wireguard_public_key ∷ node_keys nrs

-- The peers of a node that are no nodes; which family an access point uses is not seen.
unfoldable pub external_peers : List Text → Text → List WireguardPeer → List AccessPoint
external_peers keys id [] = []
external_peers keys id (p ∷ ps) =
    let rest = external_peers keys id ps in
    if has_key keys p.public_key
    then rest
    else record { node_id = id; subnet = p.iprange; wg_public_key = p.public_key; ip4 = false }
      ∷ rest

unfoldable pub extract_from : List Text → List NetResource → List AccessPoint
unfolding external_peers
extract_from keys [] = []
extract_from keys (nr ∷ nrs) =
    external_peers keys nr.resource.node_id nr.resource.peers ++ extract_from keys nrs

-- extractAccessPoints
unfoldable pub extract_access_points : NetworkBuilder → NetworkBuilder
unfolding extract_from
extract_access_points n = record n {
  access_points = extract_from (node_keys n.net_resources) n.net_resources;
}

abbrev builder_of : Network → NetworkBuilder
builder_of network = record {
  network = network;
  node_id = [];
  access_points = [];
  net_resources = [];
}

-- LoadNetworkBuilder
unfoldable pub load_network_builder : NetEnv → Text → Result NetworkBuilder
unfolding set_pub_endpoints extract_access_points
load_network_builder env text = do
  network ← or_error bad_network (env.decode_network text)
  nrs ← set_pub_endpoints env (builder_of network).net_resources
  done (extract_access_points (record (builder_of network) { net_resources = nrs }))
