-- ===== src/Examples/Nets.antt =====
-- A network of a public node and a hidden one, which was added last, with an access point.
use tfexplorer.Base.{◌++◌}
use tfexplorer.Base.{ℕ, ◌≡◌, ◌≢◌, ◌%◌, refl, true, some, List, [], ◌∷◌, arith, Among, here, there}
use tfexplorer.Base.Text.{Text, codes, text_eq}
use tfexplorer.Models.Workloads.{IpRange, WireguardPeer, Network}
use tfexplorer.Program.{done, failed}
use Prim.Native.String.{String}
use tfexplorer.Examples.Grid.{n1}
use tfexplorer.Provision.Network.{
  NetResource, AccessPoint, NetworkBuilder, build_network, eq_of_done, stuck,
}
use tfexplorer.Provision.Address.{wg_ip}
use tfexplorer.Base.Net.{
  is_to4, format_ip_net, ipv4, cidr_mask, mask_bits, mask_ones, is_simple_mask,
}
use tfexplorer.Provision.Dict.{get_or}
use tfexplorer.Provision.Tables.{external_subnets, internal_subnets}
use tfexplorer.Provision.Peers.{generate_peers, with_peers}
use tfexplorer.Provision.Peers.Mesh.{Meshed, external_of, generate_peers-Meshed}
use tfexplorer.Provision.Peers.Ends.{IsFinal}
use tfexplorer.Provision.Peers.Termination.{generate_peers-Ends}
use tfexplorer.Provision.Nodes.{NetEnv, add_node}
use tfexplorer.Provision.Config.{add_access}
use tfexplorer.Provision.Config.Access.{IsGranted, add_access-IsGranted}
use tfexplorer.Provision.Load.{save_network}
use tfexplorer.Provision.Load.Kept.{none_yet, node_added, access_added, Edits-build_network}

abbrev range24 : ℕ → ℕ → IpRange
range24 a b = record { ip = 10 ∷ a ∷ b ∷ 0 ∷ []; mask = 255 ∷ 255 ∷ 255 ∷ 0 ∷ [] }

abbrev link32 : ℕ → ℕ → IpRange
link32 a b = record {
  ip = 0 ∷ 0 ∷ 0 ∷ 0 ∷ 0 ∷ 0 ∷ 0 ∷ 0 ∷ 0 ∷ 0 ∷ 255 ∷ 255 ∷ 100 ∷ 64 ∷ a ∷ b ∷ [];
  mask = 255 ∷ 255 ∷ 255 ∷ 255 ∷ [];
}

abbrev part : String → ℕ → IpRange → List (List ℕ) → NetResource
part id port range endpoints = record {
  resource = record {
    node_id = codes id;
    wireguard_private_key_encrypted = [];
    wireguard_public_key = codes id;
    wireguard_listen_port = port;
    iprange = range;
    peers = [];
  };
  pub_endpoints = endpoints;
}

abbrev shown_node : NetResource
shown_node = part "a" 2100 (range24 1 1) ((185 ∷ 69 ∷ 166 ∷ 10 ∷ []) ∷ [])

abbrev hidden_node : NetResource
hidden_node = part "b" 2200 (range24 1 2) []

abbrev laptop : AccessPoint
laptop = record {
  node_id = codes "a";
  subnet = range24 1 9;
  wg_public_key = codes "k+";
  ip4 = true;
}

abbrev home_network : Network
home_network = record {
  name = codes "home";
  workload_id = 0;
  iprange = record { ip = 10 ∷ 1 ∷ 0 ∷ 0 ∷ []; mask = 255 ∷ 255 ∷ 0 ∷ 0 ∷ [] };
  stats_aggregator = [];
  network_resources = [];
  farmer_tid = 0;
}

abbrev empty_net : NetworkBuilder
empty_net = record { network = home_network; node_id = []; access_points = []; net_resources = [] }

abbrev home : NetworkBuilder
home = record {
  network = home_network;
  node_id = codes "b";
  access_points = laptop ∷ [];
  net_resources = shown_node ∷ hidden_node ∷ [];
}

abbrev peer_of_shown : WireguardPeer
peer_of_shown = record {
  public_key = codes "a";
  allowed_iprange = range24 1 1 ∷ link32 1 1 ∷ [];
  endpoint = codes "185.69.166.10:2100";
  iprange = range24 1 1;
}

abbrev laptop_peer : WireguardPeer
laptop_peer = record {
  public_key = codes "k+";
  allowed_iprange = range24 1 9 ∷ link32 1 9 ∷ [];
  endpoint = [];
  iprange = range24 1 9;
}

-- The public node gets itself as a peer, and the hidden node, added last, is nobody's peer.
abbrev linked_home : List NetResource
linked_home =
    with_peers shown_node (peer_of_shown ∷ laptop_peer ∷ [])
    ∷ with_peers hidden_node (peer_of_shown ∷ [])
    ∷ []

generate_peers-home : generate_peers 6 home ≡ done linked_home
unfolding generate_peers is_to4 text_eq format_ip_net ipv4 cidr_mask
generate_peers-home = refl

generate_peers-Meshed_example : Meshed home (external_of home) home.net_resources linked_home
generate_peers-Meshed_example = generate_peers-Meshed 6 home generate_peers-home

laptop-IsFinal :
    (a : AccessPoint) → Among a home.access_points → IsFinal (external_of home) a.subnet
unfolding get_or external_subnets internal_subnets text_eq format_ip_net wg_ip ipv4 cidr_mask
laptop-IsFinal a (here _) = record {
  leaf = refl;
  link_leaf = λ wg e. let same = eq_of_done e in rw (← same) refl;
}
laptop-IsFinal a (there _ _ k) = elim k [ ]

generate_peers-Ends_example : generate_peers 6 home ≢ failed stuck
generate_peers-Ends_example = generate_peers-Ends 6 home laptop-IsFinal (omega arith)

abbrev public_range : IpRange
public_range = record { ip = 185 ∷ 69 ∷ 166 ∷ 11 ∷ []; mask = 255 ∷ 255 ∷ 255 ∷ 0 ∷ [] }

abbrev no_range6 : IpRange
no_range6 = record { ip = []; mask = [] }

abbrev net_env : NetEnv
net_env = record {
  node_get = λ k id. some n1;
  from_schema = λ node. record { public_config = some (public_range, no_range6); ifaces = [] };
  parse_ip_net = λ s. some (range24 1 3);
  generate_private_key = some (codes "sk");
  public_key = λ s. codes "pk";
  zero_key = codes "AAAAAAAAAAAAAAAAAAAAAAAAAAAAAAAAAAAAAAAAAAA=";
  key_from_id = λ id. some id;
  encrypt = λ s k. some s;
  intn_6000 = λ k. k % 6000;
  subnet_text = λ r. codes "100.64.0.0/24";
  decode_network = λ text. some empty_net.network;
  encode_network = λ n. n.name;
}

abbrev conf_of : String → String → Text
conf_of private_key peer_key =
    (10 ∷ codes "[Interface]")
    ++ ((10 ∷ codes "PrivateKey = ")
        ++ (codes private_key
            ++ ((10 ∷ codes "Address = 100.64.1.9/32")
                ++ ((10 ∷ 10 ∷ codes "[Peer]")
                    ++ ((10 ∷ codes "PublicKey = ")
                        ++ (codes peer_key
                            ++ ((10 ∷ codes "AllowedIPs = 10.1.0.0/16,100.64.0.0/24")
                                ++ ((10 ∷ codes "PersistentKeepalive = 20")
                                    ++ (10
                                        ∷ (codes "Endpoint = 185.69.166.10:2100"
                                            ++ 10 ∷ []))))))))))

-- A new key is made, and yet the private key is the zero key.
add_access-IsGranted_example :
    IsGranted net_env home
      (codes "a")
      (range24 1 9)
      true
      (conf_of "AAAAAAAAAAAAAAAAAAAAAAAAAAAAAAAAAAAAAAAAAAA=" "a")
unfolding add_access mask_bits mask_ones is_simple_mask is_to4 text_eq ipv4 cidr_mask format_ip_net
add_access-IsGranted_example =
    add_access-IsGranted net_env 10 home (codes "a") (range24 1 9) [] true
      {conf = conf_of "AAAAAAAAAAAAAAAAAAAAAAAAAAAAAAAAAAAAAAAAAAA=" "a"} refl

edited : NetworkBuilder
edited =
    (add_access net_env 6
      (add_node net_env 6 empty_net (codes "b") (codes "10.1.3.0/24") 2200 true).0 (codes "b")
      (range24 1 9) (codes "k") true).0

Edits-build_network_example :
    (build_network edited ≡ home_network) × (save_network net_env edited ≡ codes "home")
unfolding edited build_network save_network
Edits-build_network_example = Edits-build_network {env = net_env} {fuel = 6} (
    access_added (codes "b") (range24 1 9) (codes "k") true
      (node_added (codes "b") (codes "10.1.3.0/24") 2200 true none_yet))
