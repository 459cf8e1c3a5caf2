-- ===== src/Provision/Peers/Termination.antt =====
-- generatePeers of provision/builders/networkBuilder.go ends if no external subnet comes in through
-- another one.
use tfexplorer.Base.{
  ℕ, ◌+◌, ◌*◌, ◌≤◌, ◌≡◌, ◌≢◌, refl, inl, inr, false, List, [], ◌∷◌, ◌++◌, arith, All, Among, here,
  there, All-Among, Bool-cases, length,
}
use tfexplorer.Base.Text.{Text, text_eq}
use tfexplorer.Models.Workloads.{IpRange}
use tfexplorer.Program.{done, failed}
use tfexplorer.Provision.Dict.{get_or}
use tfexplorer.Provision.Network.{
  NetResource, AccessPoint, NetworkBuilder, stuck, Ends, >>=-Ends, done-Ends,
}
use tfexplorer.Provision.Address.{format_range}
use tfexplorer.Provision.Tables.{is_hidden, select_pub, Tables, tables, internal_subnets}
use tfexplorer.Provision.Peers.{
  with_link, extend, linked, mesh_peer, peer_for, peers_for, access_peers, link_nodes,
  generate_peers, routed_by_hidden, routed_by_public, first_v4, first_v6,
}
use tfexplorer.Provision.Peers.Links.{NoRoute, routed_by_hidden-nil, routed_by_public-nil}
use tfexplorer.Provision.Peers.Mesh.{external_of, tables-NoRoute}
use tfexplorer.Provision.Peers.Ends.{
  IsFinal, with_link-Ends, with_link-length, extend-Ends, external_subnets-All,
  external_subnets-length,
}

-- The loops go on to the end, with the fuel for two subnets to begin with.
module _ (fuel : ℕ) (t : Tables) (bound : ℕ)
    (small : (r : IpRange) → length (get_or t.external (format_range r) []) ≤ bound)
    (final : (r : IpRange) → All (IsFinal t.external) (get_or t.external (format_range r) []))
    (enough : 2 * (1 + 2 * bound) ≤ fuel) where
  linked-Ends :
      (o : NetResource) (own : List IpRange) (endpoint : Text) (routes : List IpRange)
      → with_link o.resource.iprange ≡ done own
      → routes ≡ []
      → Ends (linked fuel t o own endpoint routes)
  unfolding linked
  linked-Ends o own endpoint routes e none_more =
      let two = with_link-length o.resource.iprange own e in
      let room : 0 + (1 + 2 * bound) * length own ≤ fuel = rw two (omega arith) in
      rw none_more (
        >>=-Ends (extend fuel t.external [] (own ++ [])) _
          (extend-Ends t.external bound small final fuel [] own [] tt room)
          λ allowed _. done-Ends _)

  mesh_peer-Ends :
      (nr o : NetResource) (own : List IpRange)
      → NoRoute t nr
      → text_eq t.own_id o.resource.node_id ≡ false
      → with_link o.resource.iprange ≡ done own
      → Ends (mesh_peer fuel t nr o own)
  unfolding mesh_peer
  mesh_peer-Ends nr o own route other e h = elim (Bool-cases (is_hidden nr)) [
    | inl hid ↦ ground (
      arith,
      linked-Ends o own (first_v4 o) (routed_by_hidden t nr o) e
          (routed_by_hidden-nil t nr o route hid other),
    )
    | inr shown ↦ ground (
      arith,
      linked-Ends o own [] [] e refl,
      linked-Ends o own (first_v6 o) (routed_by_public t o) e
          (routed_by_public-nil t nr o route other),
    )
  ]

  peer_for-Ends : (nr o : NetResource) → NoRoute t nr → Ends (peer_for fuel t nr o)
  unfolding peer_for
  peer_for-Ends nr o route = elim (Bool-cases (text_eq t.own_id o.resource.node_id)) [
    | inl own ↦ rw own (done-Ends _)
    | inr other ↦ rw other (
        >>=-Ends (with_link o.resource.iprange) (mesh_peer fuel t nr o)
          (with_link-Ends o.resource.iprange) λ own e. mesh_peer-Ends nr o own route other e)
  ]

  peers_for-Ends :
      (nr : NetResource) (os : List NetResource) → NoRoute t nr → Ends (peers_for fuel t nr os)
  unfolding peers_for
  peers_for-Ends nr [] route = done-Ends []
  peers_for-Ends nr (o ∷ os) route =
      >>=-Ends (peer_for fuel t nr o) _ (peer_for-Ends nr o route) λ p _.
        >>=-Ends (peers_for fuel t nr os) _ (peers_for-Ends nr os route) λ rest _. done-Ends _

  access_peers-Ends : (eas : List AccessPoint) → Ends (access_peers eas)
  unfolding access_peers
  access_peers-Ends [] = done-Ends []
  access_peers-Ends (ea ∷ eas) =
      >>=-Ends (with_link ea.subnet) _ (with_link-Ends ea.subnet)
        λ allowed _. >>=-Ends (access_peers eas) _ (access_peers-Ends eas) λ rest _. done-Ends _

  link_nodes-Ends :
      (everyone nrs : List NetResource)
      → ((nr : NetResource) → Among nr nrs → NoRoute t nr)
      → Ends (link_nodes fuel t everyone nrs)
  unfolding link_nodes
  link_nodes-Ends everyone [] route = done-Ends []
  link_nodes-Ends everyone (nr ∷ nrs) route =
      >>=-Ends (peers_for fuel t nr everyone) _ (peers_for-Ends nr everyone (route nr (here nrs)))
        λ mesh _.
          >>=-Ends (access_peers (get_or t.access nr.resource.node_id [])) _
            (access_peers-Ends (get_or t.access nr.resource.node_id []))
            λ access _.
              >>=-Ends (link_nodes fuel t everyone nrs) _
                (link_nodes-Ends everyone nrs (λ nr' k. route nr' (there nr nrs k)))
                λ rest _. done-Ends _

select_pub-Ends : (n : NetworkBuilder) → Ends (select_pub n)
unfolding select_pub
select_pub-Ends n h = ground arith

-- The loop over the allowed subnets, which appends to the list that it runs over, ends if neither
-- the subnet of an access point nor the link address for it has, by its text, external subnets
-- itself: then generatePeers ends with a fuel of 2 rounds and 4 more for each access point.
pub generate_peers-Ends :
    (fuel : ℕ) (n : NetworkBuilder)
    → ((a : AccessPoint) → Among a n.access_points → IsFinal (external_of n) a.subnet)
    → 2 + 4 * length n.access_points ≤ fuel
    → generate_peers fuel n ≢ failed stuck
unfolding generate_peers tables
generate_peers-Ends fuel n final enough =
    let internal = internal_subnets n.node_id n.net_resources [] in
    >>=-Ends (select_pub n) _ (select_pub-Ends n) λ pub_node e.
      link_nodes-Ends fuel (tables n pub_node) (length n.access_points)
        (λ r. omega (
          arith,
          external_subnets-length internal n.access_points [] 0 (λ k. omega arith) (format_range r),
        ))
        (λ r.
          external_subnets-All (IsFinal (external_of n)) internal n.access_points []
            (All-Among (λ a. IsFinal (external_of n) a.subnet) n.access_points final) (λ k. tt)
            (format_range r))
        (omega arith) n.net_resources n.net_resources (λ nr k. tables-NoRoute n pub_node nr e k)
