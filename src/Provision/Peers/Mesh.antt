-- ===== src/Provision/Peers/Mesh.antt =====
-- The peers that generatePeers of provision/builders/networkBuilder.go gives to each node.
use tfexplorer.Base.{
  ℕ, ◌≡◌, ◌∙◌, refl, sym, ap, inl, inr, Bool, true, false, List, [], ◌∷◌, ◌++◌, arith, any, All,
  keep, Among, here, there, All-append, Among-append, Among-keep, keep-Among, any-false, Bool-cases,
}
use tfexplorer.Base.Text.{Text, text_eq, text_eq→≡, text_eq_refl}
use tfexplorer.Models.Workloads.{IpRange, WireguardPeer}
use tfexplorer.Program.{done}
use tfexplorer.Provision.Dict.{Dict, get_or}
use tfexplorer.Provision.Network.{NetResource, AccessPoint, NetworkBuilder, >>=-eq-done, eq_of_done}
use tfexplorer.Provision.Tables.{
  is_hidden, select_pub, external_subnets, internal_subnets, hidden_subnets, access_points_of,
  Tables, tables,
}
use tfexplorer.Provision.Peers.{peers_for, access_peers, with_peers, link_nodes, generate_peers}
use tfexplorer.Provision.Peers.Links.{Source, NoRoute, own_node, none_hidden, can_link, HasLink}
use tfexplorer.Provision.Peers.Others.{peers_for-Source, peers_for-HasLink}
use tfexplorer.Provision.Peers.Points.{
  HasAccess, access_points_of-keep, access_peers-Source, access_peers-HasAccess,
}

-- The nodes and what generatePeers makes of them: only the peers are new. They come from other
-- nodes and from access points, and those of all that can be linked are there.
pub data Meshed (n : NetworkBuilder) (ext : Dict (List IpRange))
    : List NetResource → List NetResource → Type 0 where
  end : Meshed n ext [] []
  node :
      (nr : NetResource) (ps : List WireguardPeer) {nrs nrs' : List NetResource}
      → All (Source n ext nr) ps
      → ((o : NetResource)
          → Among o n.net_resources
          → text_eq n.node_id o.resource.node_id ≡ false
          → can_link nr o ≡ true
          → HasLink ext nr o ps)
      → ((a : AccessPoint)
          → Among a n.access_points
          → a.node_id ≡ nr.resource.node_id
          → HasAccess nr.resource.node_id a ps)
      → Meshed n ext nrs nrs'
      → Meshed n ext (nr ∷ nrs) (with_peers nr ps ∷ nrs')

module _ (fuel : ℕ) (n : NetworkBuilder) (t : Tables) (own : t.own_id ≡ n.node_id)
    (points : t.access ≡ access_points_of n.access_points []) where
  access-keep :
      (id : Text) → get_or t.access id [] ≡ keep (λ a. text_eq a.node_id id) n.access_points
  unfolding get_or
  access-keep id = rw points (access_points_of-keep n.access_points [] id)

  node-Meshed :
      (nr : NetResource) (mesh points_of : List WireguardPeer) {nrs nrs' : List NetResource}
      → NoRoute t nr
      → peers_for fuel t nr n.net_resources ≡ done mesh
      → access_peers (get_or t.access nr.resource.node_id []) ≡ done points_of
      → Meshed n t.external nrs nrs'
      → Meshed n t.external (nr ∷ nrs) (with_peers nr (mesh ++ points_of) ∷ nrs')
  node-Meshed nr mesh points_of route em ea rest =
      let id : Text = nr.resource.node_id in
      let at_node : AccessPoint → Bool = λ a. text_eq a.node_id id in
      let ea' : access_peers (keep at_node n.access_points) ≡ done points_of =
        ap access_peers (sym (access-keep id)) ∙ ea in
      node nr (mesh ++ points_of)
        (All-append (Source n t.external nr) mesh points_of
          (peers_for-Source fuel n t nr route own n.net_resources (λ o k. k) em)
          (access_peers-Source n t.external nr (keep at_node n.access_points)
            (λ a k.
              let (among, same) = Among-keep at_node n.access_points k in
              (among, text_eq→≡ a.node_id id same))
            ea'))
        (λ o k other can.
          let found = peers_for-HasLink fuel n t nr route own n.net_resources k em other can in
          record {
            peer = found.peer;
            among = Among-append mesh points_of (inl found.among);
            is_link = found.is_link;
          })
        (λ a k same.
          let found =
            access_peers-HasAccess n t.external nr (keep at_node n.access_points)
              (keep-Among at_node n.access_points (rw same (text_eq_refl id)) k) ea' same in
          record {
            peer = found.peer;
            among = Among-append mesh points_of (inr found.among);
            is_access = found.is_access;
          })
        rest

  link_nodes-Meshed :
      (nrs : List NetResource) {nrs' : List NetResource}
      → ((nr : NetResource) → Among nr nrs → NoRoute t nr)
      → link_nodes fuel t n.net_resources nrs ≡ done nrs'
      → Meshed n t.external nrs nrs'
  unfolding link_nodes
  link_nodes-Meshed [] {nrs'} route h = rw (sym (eq_of_done h)) end
  link_nodes-Meshed (nr ∷ nrs) route h =
      let id = nr.resource.node_id in
      let (mesh, em, h1) = >>=-eq-done (peers_for fuel t nr n.net_resources) _ h in
      let (acc, ea, h2) = >>=-eq-done (access_peers (get_or t.access id [])) _ h1 in
      let (rest, er, h3) = >>=-eq-done (link_nodes fuel t n.net_resources nrs) _ h2 in
      rw (sym (eq_of_done h3)) (
        node-Meshed nr mesh acc (route nr (here nrs)) em ea
          (link_nodes-Meshed nrs (λ nr' k. route nr' (there nr nrs k)) er))

hidden_subnets-nil :
    (id : Text) (nrs : List NetResource) → any is_hidden nrs ≡ false → hidden_subnets id nrs [] ≡ []
unfolding hidden_subnets
hidden_subnets-nil id [] h = refl
hidden_subnets-nil id (nr ∷ nrs) h = ground (arith, hidden_subnets-nil id nrs)

-- The choice of the public node, and what it says of hidden nodes.
pub tables-NoRoute :
    (n : NetworkBuilder) (pub_node : Text) (nr : NetResource)
    → select_pub n ≡ done pub_node
    → Among nr n.net_resources
    → NoRoute (tables n pub_node) nr
unfolding select_pub tables
tables-NoRoute n pub_node nr h k = elim (Bool-cases (any is_hidden n.net_resources)) [
  | inl e ↦ own_node (ground arith)
  | inr e ↦
      none_hidden (any-false is_hidden n.net_resources e k)
        (hidden_subnets-nil n.node_id n.net_resources e)
]

-- The table of the external subnets.
abbrev pub external_of : NetworkBuilder → Dict (List IpRange)
external_of n = external_subnets (internal_subnets n.node_id n.net_resources []) n.access_points []

-- If generatePeers succeeds, it changes nothing of the nodes but their peers. Each peer of a node
-- is the link to another node than the one that was added last, or an access point of the node; it
-- has the key and the subnet of that node or access point. A link routes the subnet of its node and
-- the link address for it, and with each of these the subnets that the table of external subnets
-- has for its text, each with its link address, and so on: no subnet of a hidden node. To an access
-- point its subnet is routed with its link address, and no endpoint of it is known. A hidden node
-- reaches a node at the first IPv4 address; a public one reaches a public one at the first IPv6
-- address, or without one at the first IPv4 address, and knows no endpoint of a hidden one, to which
-- it links only if it has IPv4 itself. A link is there to each such node that can be linked, and a
-- peer for each access point.
pub generate_peers-Meshed :
    (fuel : ℕ) (n : NetworkBuilder) {nrs : List NetResource}
    → generate_peers fuel n ≡ done nrs
    → Meshed n (external_of n) n.net_resources nrs
unfolding generate_peers tables
generate_peers-Meshed fuel n h =
    let (pub_node, e, h') = >>=-eq-done (select_pub n) _ h in
    link_nodes-Meshed fuel n (tables n pub_node) refl refl n.net_resources
      (λ nr k. tables-NoRoute n pub_node nr e k) h'
