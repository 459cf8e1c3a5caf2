-- ===== src/Provision/Left.antt =====
-- provision/builders/networkBuilder.go: the resources as a panic in the loops of generatePeers leaves
-- them, since these append to the peers in place. The loops are those of Provision.Peers; where the
-- fuel is too little, the resources are those at the point where it ran out, and Go goes on.
use tfexplorer.Base.{ℕ, List, [], ◌∷◌, ◌++◌}
use tfexplorer.Models.Workloads.{WireguardPeer}
use tfexplorer.Program.{done, failed}
use tfexplorer.Provision.Dict.{get_or}
use tfexplorer.Provision.Network.{NetResource, AccessPoint, NetworkBuilder, Result}
use tfexplorer.Provision.Tables.{select_pub, Tables, tables}
use tfexplorer.Provision.Peers.{peer_for, add_peer, peers_for, access_peers, with_peers}

-- The peers of a node for other nodes, up to the first that cannot be made.
unfoldable pub peers_left : ℕ → Tables → NetResource → List NetResource → List WireguardPeer
unfolding peer_for
peers_left fuel t nr [] = []
peers_left fuel t nr (onr ∷ onrs) = elim (peer_for fuel t nr onr) [
  | done p ↦ add_peer p (peers_left fuel t nr onrs)
  | failed e ↦ []
]

-- The peers for access points, up to the first that cannot be made.
unfoldable pub access_left : List AccessPoint → List WireguardPeer
unfolding access_peers
access_left [] = []
access_left (ea ∷ eas) = elim (access_peers (ea ∷ [])) [
  | done ps ↦ ps ++ access_left eas
  | failed e ↦ []
]

-- A node whose peers for other nodes are made, or not, and the nodes after it as they are left.
unfoldable pub node_left :
    Tables
    → NetResource
    → List NetResource
    → List NetResource
    → List WireguardPeer
    → Result (List WireguardPeer)
    → List NetResource
unfolding access_left access_peers get_or
node_left t nr nrs later mesh (failed e) = with_peers nr mesh ∷ nrs
node_left t nr nrs later mesh (done all_mesh) =
    elim (access_peers (get_or t.access nr.resource.node_id [])) [
      | done points ↦ with_peers nr (all_mesh ++ points) ∷ later
      | failed e ↦
          with_peers nr (all_mesh ++ access_left (get_or t.access nr.resource.node_id [])) ∷ nrs
    ]

-- The loop over the nodes: those after the one where it panics keep their old peers.
unfoldable pub nodes_left : ℕ → Tables → List NetResource → List NetResource → List NetResource
unfolding peers_left node_left peers_for
nodes_left fuel t everyone [] = []
nodes_left fuel t everyone (nr ∷ nrs) =
    node_left t nr nrs (nodes_left fuel t everyone nrs) (peers_left fuel t nr everyone)
      (peers_for fuel t nr everyone)

-- The resources after generatePeers, where it fails: as they were without a public node.
unfoldable pub resources_left : ℕ → NetworkBuilder → List NetResource
unfolding nodes_left select_pub tables
resources_left fuel n = elim (select_pub n) [
  | done pub_node ↦ nodes_left fuel (tables n pub_node) n.net_resources n.net_resources
  | failed e ↦ n.net_resources
]
