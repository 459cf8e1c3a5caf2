-- ===== src/Reservation/Nodes.antt =====
-- Reservation.NodeIDs and Reservation.GatewayIDs of pkg/workloads/types/reservation.go. The set is
-- a list without duplicates; Go leaves the order of its elements open.
pub mod Laws
use tfexplorer.Base.{Bool, List, [], ◌∷◌, ◌++◌, map, if◌then◌else◌, any}
use tfexplorer.Base.Text.{Text, text_eq}
use tfexplorer.Models.Workloads.{Network, NetworkNetResource, Reservation}

abbrev pub contains : Text → List Text → Bool
contains id = any (λ i. text_eq i id)

-- ids[id] = struct{}{}
unfoldable pub insert_id : List Text → Text → List Text
insert_id ids id = if contains id ids then ids else id ∷ ids

unfoldable pub insert_all : List Text → List Text → List Text
unfolding insert_id
insert_all ids [] = ids
insert_all ids (id ∷ more) = insert_all (insert_id ids id) more

unfoldable pub network_nodes : List Network → List Text
network_nodes [] = []
network_nodes (w ∷ ws) =
    map (λ (nr : NetworkNetResource). nr.node_id) w.network_resources ++ network_nodes ws

-- The IDs that the loops of NodeIDs insert, in their order.
unfoldable pub used_nodes : Reservation → List Text
unfolding network_nodes
used_nodes r =
    map (λ w. w.node_id) d.containers
    ++ network_nodes d.networks
    ++ map (λ w. w.node_id) d.zdbs
    ++ map (λ w. w.node_id) d.volumes
    ++ map (λ w. w.node_id) d.kubernetes
  where
    open r use {data_reservation as d}

unfoldable pub used_gateways : Reservation → List Text
used_gateways r =
    map (λ p. p.node_id) d.proxies
    ++ map (λ p. p.node_id) d.reserve_proxy
    ++ map (λ p. p.node_id) d.subdomains
    ++ map (λ p. p.node_id) d.domain_delegates
    ++ map (λ p. p.node_id) d.gateway4_to6s
  where
    open r use {data_reservation as d}

unfoldable pub node_ids : Reservation → List Text
unfolding insert_all used_nodes
node_ids r = insert_all [] (used_nodes r)

unfoldable pub gateway_ids : Reservation → List Text
unfolding insert_all used_gateways
gateway_ids r = insert_all [] (used_gateways r)
