-- ===== src/Provision/Config.antt =====
-- provision/builders/networkBuilder.go: AddAccess with the WireGuard configuration that it returns,
-- and RemoveNode.
pub mod Access
use tfexplorer.Base.{
  ℕ, suc, Bool, true, false, ◌&&◌, not, Option, none, some, List, [], ◌∷◌, ◌++◌, ◌==◌, any, find,
  if◌then◌else◌,
}
use tfexplorer.Base.Text.{Text, codes, is_empty, text_eq}
use tfexplorer.Base.Net.{is_to4, is_to16}
use tfexplorer.Models.Workloads.{IpRange, WireguardPeer, Network}
use tfexplorer.Program.{Outcome, done, failed}
use tfexplorer.Provision.Network.{
  NetResource, AccessPoint, NetworkBuilder, Result, empty_node_id, not_in_network, hidden_access,
  wrong_family, no_key, bad_local_subnet, bad_network, not_opened, not_saved, ◌>>=◌, ◌>>◌,
}
use tfexplorer.Provision.Address.{format_range, wg_ip, wg_subnet, is_ipv4_subnet}
use tfexplorer.Provision.Tables.{is_hidden}
use tfexplorer.Provision.Peers.{generate_peers, endpoint_v4, endpoint_v6}
use tfexplorer.Provision.Left.{resources_left}
use tfexplorer.Provision.Nodes.{NetEnv, or_error, ips_of, get_end_point_addrs, settle_peers}

-- How html/template prints a character.
unfoldable pub escape_char : ℕ → Text
escape_char c =
    if c == 0
    then 0xFFFD ∷ []
    else if c == 34
    then codes "&#34;"
    else if c == b'&'
    then codes "&amp;"
    else if c == 39
    then codes "&#39;"
    else if c == b'+'
    then codes "&#43;"
    else if c == b'<'
    then codes "&lt;"
    else if c == b'>'
    then codes "&gt;"
    else c ∷ []

unfoldable pub escape : Text → Text
unfolding escape_char
escape [] = []
escape (c ∷ s) = escape_char c ++ escape s

unfoldable pub concat : List Text → Text
concat [] = []
concat (s ∷ ss) = s ++ concat ss

-- The parts of wgTmpl with the private key, the address, the peer's key, the subnets and the
-- endpoint.
abbrev pub pieces : Text → Text → Text → Text → Text → List Text
pieces private_key address peer_key subnets endpoint =
    (10 ∷ codes "[Interface]")
    ∷ (10 ∷ codes "PrivateKey = ")
    ∷ escape private_key
    ∷ (10 ∷ codes "Address = ")
    ∷ escape address
    ∷ (10 ∷ 10 ∷ codes "[Peer]")
    ∷ (10 ∷ codes "PublicKey = ")
    ∷ escape peer_key
    ∷ (10 ∷ codes "AllowedIPs = ")
    ∷ escape subnets
    ∷ (10 ∷ codes "PersistentKeepalive = 20")
    ∷ (10 ∷ (if is_empty endpoint then [] else codes "Endpoint = "))
    ∷ escape endpoint
    ∷ (10 ∷ [])
    ∷ []

-- wgTmpl, executed.
unfoldable pub wg_tmpl : Text → Text → Text → Text → Text → Text
unfolding escape concat
wg_tmpl private_key address peer_key subnets endpoint =
    concat (pieces private_key address peer_key subnets endpoint)

-- genWGQuick
unfoldable pub gen_wg_quick : NetEnv → Text → IpRange → Text → IpRange → Text → Result Text
unfolding is_ipv4_subnet wg_ip wg_subnet format_range wg_tmpl
gen_wg_quick env private_key local peer_key allowed endpoint = do
  (if not (is_ipv4_subnet local) then failed bad_local_subnet else done tt)
  address ← wg_ip local
  subnet ← wg_subnet allowed
  done (
      wg_tmpl private_key (format_range address) peer_key
        (format_range allowed ++ (b',' ∷ env.subnet_text subnet)) endpoint)

-- The first node with an ID.
unfoldable pub find_node : Text → List NetResource → Option NetResource
find_node id nrs = find (λ nr. text_eq nr.resource.node_id id) nrs

abbrev first_ip : List (List ℕ) → List ℕ
first_ip [] = []
first_ip (ip ∷ ips) = ip

-- The loop over the public addresses of the access node, for the first of the requested family.
unfoldable pub access_endpoint : Bool → NetResource → List (List ℕ) → Text
unfolding endpoint_v4 endpoint_v6
access_endpoint ip4 nr [] = []
access_endpoint ip4 nr (ep ∷ eps) =
    let rest = access_endpoint ip4 nr eps in
    if is_to4 ep
    then (if ip4 then endpoint_v4 ep nr.resource.wireguard_listen_port else rest)
    else if is_to16 ep && not ip4
    then endpoint_v6 (first_ip nr.pub_endpoints) nr.resource.wireguard_listen_port
    else rest

-- The access node and its endpoint.
unfoldable pub access_node : NetworkBuilder → Text → Bool → Result (NetResource × Text)
unfolding find_node access_endpoint is_hidden
access_node n id ip4 = do
  (if is_empty id then failed empty_node_id else done tt)
  node ← or_error not_in_network (find_node id n.net_resources)
  (if is_hidden node then failed hidden_access else done tt)
  (if is_empty (access_endpoint ip4 node node.pub_endpoints) then failed wrong_family else done tt)
  done (node, access_endpoint ip4 node node.pub_endpoints)

-- The key of the access point: the one that is given, or the public part of a new one. The new
-- private key is bound to a variable of the inner block.
unfoldable pub access_key : NetEnv → Text → Result Text
access_key env wg_pub_key =
    if is_empty wg_pub_key
    then (do sk ← or_error no_key env.generate_private_key; done (env.public_key sk))
    else done wg_pub_key

abbrev pub access_point : Text → IpRange → Text → Bool → AccessPoint
access_point id subnet key ip4 = record {
  node_id = id;
  subnet = subnet;
  wg_public_key = key;
  ip4 = ip4;
}

abbrev pub with_point : NetworkBuilder → AccessPoint → NetworkBuilder
with_point n point = record n { access_points = n.access_points ++ point ∷ [] }

-- AddAccess from where the access point is known: it stays with the builder also after an error.
unfoldable pub grant :
    NetEnv → ℕ → NetworkBuilder → AccessPoint → NetResource → Text → NetworkBuilder × Result Text
unfolding gen_wg_quick generate_peers resources_left
grant env fuel n point node endpoint =
    settle_peers (with_point n point) (resources_left fuel (with_point n point))
      (generate_peers fuel (with_point n point))
      (gen_wg_quick env env.zero_key point.subnet node.resource.wireguard_public_key
        n.network.iprange endpoint)

abbrev pub with_key :
    NetEnv
    → ℕ
    → NetworkBuilder
    → (Text → AccessPoint)
    → NetResource
    → Text
    → Result Text
    → NetworkBuilder × Result Text
with_key env fuel n point node endpoint (failed e) = (n, failed e)
with_key env fuel n point node endpoint (done key) = grant env fuel n (point key) node endpoint

abbrev pub access_with :
    NetEnv
    → ℕ
    → NetworkBuilder
    → Text
    → IpRange
    → Text
    → Bool
    → Result (NetResource × Text)
    → NetworkBuilder × Result Text
access_with env fuel n id subnet key ip4 (failed e) = (n, failed e)
access_with env fuel n id subnet key ip4 (done (node, endpoint)) =
    with_key env fuel n (λ key'. access_point id subnet key' ip4) node endpoint (access_key env key)

-- AddAccess: the builder afterwards, and the configuration.
unfoldable pub add_access :
    NetEnv → ℕ → NetworkBuilder → Text → IpRange → Text → Bool → NetworkBuilder × Result Text
unfolding access_node access_key grant
add_access env fuel n id subnet key ip4 =
    access_with env fuel n id subnet key ip4 (access_node n id ip4)

-- The loop of RemoveNode: the first resource of the node is taken out.
unfoldable pub without_node : Text → List NetResource → List NetResource
without_node id [] = []
without_node id (nr ∷ nrs) =
    if text_eq nr.resource.node_id id then nrs else nr ∷ without_node id nrs

-- RemoveNode, by whether the file can be opened and written.
unfoldable pub remove_node :
    Bool → Bool → NetworkBuilder → Text → NetworkBuilder × Result (Unit {0})
unfolding without_node
remove_node opened saved n id = (
  record n { net_resources = without_node id n.net_resources },
  if not opened then failed not_opened else if saved then done tt else failed not_saved,
)
