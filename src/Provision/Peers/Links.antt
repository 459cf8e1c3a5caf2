-- ===== src/Provision/Peers/Links.antt =====
-- The link of one node to another in generatePeers of provision/builders/networkBuilder.go.
use tfexplorer.Base.{
  ℕ, ◌≡◌, ◌≢◌, refl, inl, inr, Bool, true, false, ◌||◌, not, Option, none, some, List, [], ◌∷◌,
  ◌++◌, arith, All, Among, there, Bool-cases, if◌then◌else◌,
}
use tfexplorer.Base.Text.{Text, text_eq, text_eq→≡, text_eq_refl}
use tfexplorer.Models.Workloads.{IpRange, WireguardPeer}
use tfexplorer.Program.{done}
use tfexplorer.Provision.Dict.{Dict}
use tfexplorer.Provision.Network.{NetResource, AccessPoint, NetworkBuilder, >>=-eq-done}
use tfexplorer.Provision.Address.{wg_ip, has_ipv4}
use tfexplorer.Provision.Tables.{is_hidden, Tables}
use tfexplorer.Provision.Peers.Routes.{
  IsRouted, extend-IsRouted, IsV4Endpoint, IsPublicEndpoint, first_v4-IsV4Endpoint,
  first_v6-IsPublicEndpoint,
}
use tfexplorer.Provision.Peers.{
  with_link, with_links, extend, subnets_but, routed_by_hidden, routed_by_public, linked, mesh_peer,
  first_v4, first_v6, add_peer,
}

-- Which links a node can make: a hidden node has the IPv4 endpoint of the peer, a node without IPv4
-- has no hidden peer, no endpoint is known of a hidden peer, and public nodes reach each other.
pub record IsReachable (nr o : NetResource) (p : WireguardPeer) : Type 0 where
  pub from_hidden : is_hidden nr ≡ true → IsV4Endpoint o p.endpoint
  pub from_v6 : is_hidden nr ≡ false → has_ipv4 nr ≡ false → is_hidden o ≡ false
  pub to_hidden : is_hidden nr ≡ false → is_hidden o ≡ true → p.endpoint ≡ []
  pub public : is_hidden nr ≡ false → is_hidden o ≡ false → IsPublicEndpoint o p.endpoint

-- The peer of `nr` for the node `o`: what it routes comes from the subnet of `o` and the access
-- points alone.
pub record IsLink (external : Dict (List IpRange)) (nr o : NetResource) (p : WireguardPeer)
    : Type 0 where
  pub key : p.public_key ≡ o.resource.wireguard_public_key
  pub range : p.iprange ≡ o.resource.iprange
  pub link : IpRange
  pub link_lem : wg_ip o.resource.iprange ≡ done link
  pub routes : IsRouted external (o.resource.iprange ∷ link ∷ []) p.allowed_iprange
  pub reachable : IsReachable nr o p

-- The peer for an access point, of which the endpoint is not known: its subnet is routed to it with
-- the link address for it.
pub record IsAccess (id : Text) (a : AccessPoint) (p : WireguardPeer) : Type 0 where
  pub node : a.node_id ≡ id
  pub key : p.public_key ≡ a.wg_public_key
  pub range : p.iprange ≡ a.subnet
  pub endpoint : p.endpoint ≡ []
  pub link : IpRange
  pub link_lem : wg_ip a.subnet ≡ done link
  pub routes : p.allowed_iprange ≡ a.subnet ∷ link ∷ []

-- The node's peer is the link to another node than the builder's own, or an access point of it.
pub data Source (n : NetworkBuilder) (ext : Dict (List IpRange)) (nr : NetResource)
    : WireguardPeer → Type 0 where
  link :
      (o : NetResource) (p : WireguardPeer)
      → Among o n.net_resources
      → text_eq n.node_id o.resource.node_id ≡ false
      → IsLink ext nr o p
      → Source n ext nr p
  access :
      (a : AccessPoint) (p : WireguardPeer)
      → Among a n.access_points
      → IsAccess nr.resource.node_id a p
      → Source n ext nr p

-- The public node is no other node: it is the builder's own, or there is none, and then no node is
-- hidden.
pub data NoRoute (t : Tables) (nr : NetResource) : Type 0 where
  own_node : t.pub_nr ≡ t.own_id → NoRoute t nr
  none_hidden : is_hidden nr ≡ false → t.hidden ≡ [] → NoRoute t nr

linked-IsLink :
    (fuel : ℕ) (t : Tables) (nr o : NetResource) (own : List IpRange) (endpoint : Text)
    (routes : List IpRange) {p : WireguardPeer}
    → with_link o.resource.iprange ≡ done own
    → routes ≡ []
    → linked fuel t o own endpoint routes ≡ done (some p)
    → ((q : WireguardPeer) → q.endpoint ≡ endpoint → IsReachable nr o q)
    → IsLink t.external nr o p
unfolding linked with_link with_links
linked-IsLink fuel t nr o own endpoint routes {p} hown hr h reach =
    let (wg, ewg, eown) = >>=-eq-done (wg_ip o.resource.iprange) _ hown in
    let (allowed, eall, ep) = >>=-eq-done (extend fuel t.external [] (own ++ [])) _ (rw hr at h) in
    record {
      key = ground arith;
      range = ground arith;
      link = wg;
      link_lem = ewg;
      routes =
          let eo : o.resource.iprange ∷ wg ∷ [] ≡ own = cc in
          let ea : allowed ≡ p.allowed_iprange = ground arith in
          let (out, same, routed) =
            extend-IsRouted fuel t.external [] (o.resource.iprange ∷ wg ∷ []) (rw (← eo) at eall) in
          rw (← ea, same) routed;
      reachable = reach _ (ground arith);
    }

-- No node but the builder's own is the public node.
not_pub :
    (t : Tables) (o : NetResource)
    → t.pub_nr ≡ t.own_id
    → text_eq t.own_id o.resource.node_id ≡ false
    → text_eq o.resource.node_id t.pub_nr ≡ false
not_pub t o own other =
    ground (arith, text_eq→≡ o.resource.node_id t.pub_nr, text_eq_refl o.resource.node_id)

pub routed_by_hidden-nil :
    (t : Tables) (nr o : NetResource)
    → NoRoute t nr
    → is_hidden nr ≡ true
    → text_eq t.own_id o.resource.node_id ≡ false
    → routed_by_hidden t nr o ≡ []
unfolding routed_by_hidden
routed_by_hidden-nil t nr o (own_node own) h other = rw (not_pub t o own other)
routed_by_hidden-nil t nr o (none_hidden shown nobody) h other = cc

pub routed_by_public-nil :
    (t : Tables) (nr o : NetResource)
    → NoRoute t nr
    → text_eq t.own_id o.resource.node_id ≡ false
    → routed_by_public t o ≡ []
unfolding routed_by_public subnets_but
routed_by_public-nil t nr o (own_node own) other = rw (not_pub t o own other)
routed_by_public-nil t nr o (none_hidden shown nobody) other = rw nobody (ground arith)

hidden_endpoint : (o : NetResource) → has_ipv4 o ≡ true → IsV4Endpoint o (first_v4 o)
unfolding has_ipv4
hidden_endpoint o h = first_v4-IsV4Endpoint o h

pub mesh_peer-IsLink :
    (fuel : ℕ) (t : Tables) (nr o : NetResource) (own : List IpRange) {p : WireguardPeer}
    → NoRoute t nr
    → text_eq t.own_id o.resource.node_id ≡ false
    → with_link o.resource.iprange ≡ done own
    → mesh_peer fuel t nr o own ≡ done (some p)
    → IsLink t.external nr o p
unfolding mesh_peer
mesh_peer-IsLink fuel t nr o own route other hown h = elim (Bool-cases (is_hidden nr)) [
  | inl hid ↦ elim (Bool-cases (has_ipv4 o)) [
    | inl v4 ↦
        linked-IsLink fuel t nr o own (first_v4 o) (routed_by_hidden t nr o) hown
          (routed_by_hidden-nil t nr o route hid other) (rw (hid, v4) at h)
          λ q e. record {
            from_hidden = λ _. rw e (hidden_endpoint o v4);
            from_v6 = λ k. cc;
            to_hidden = λ k. cc;
            public = λ k. cc;
          }
    | inr v4 ↦ ground arith
  ]
  | inr shown ↦ elim (Bool-cases (is_hidden o)) [
    | inl hid ↦ elim (Bool-cases (has_ipv4 nr)) [
      | inl v4 ↦ linked-IsLink fuel t nr o own [] [] hown refl (rw (shown, hid, v4) at h) λ q e.
          record {
            from_hidden = λ k. cc;
            from_v6 = λ k l. cc;
            to_hidden = λ k l. e;
            public = λ k l. cc;
          }
      | inr v4 ↦ ground arith
    ]
    | inr open_node ↦
        linked-IsLink fuel t nr o own (first_v6 o) (routed_by_public t o) hown
          (routed_by_public-nil t nr o route other) (ground arith)
          λ q e. record {
            from_hidden = λ k. cc;
            from_v6 = λ k l. open_node;
            to_hidden = λ k l. cc;
            public = λ k l. rw e (first_v6-IsPublicEndpoint o);
          }
  ]
]

-- Whether two nodes can be linked: one has to reach the other over IPv4 or over IPv6.
abbrev pub can_link : NetResource → NetResource → Bool
can_link nr o = if is_hidden nr then has_ipv4 o else has_ipv4 nr || not (is_hidden o)

linked-ne-none :
    (fuel : ℕ) (t : Tables) (o : NetResource) (own : List IpRange) (endpoint : Text)
    (routes : List IpRange)
    → linked fuel t o own endpoint routes ≢ done none
unfolding linked
linked-ne-none fuel t o own endpoint routes h =
    let (routed, _, h') = >>=-eq-done (with_links routes) _ h in
    let (allowed, _, h'') = >>=-eq-done (extend fuel t.external [] (own ++ routed)) _ h' in cc

pub mesh_peer-none :
    (fuel : ℕ) (t : Tables) (nr o : NetResource) (own : List IpRange)
    → mesh_peer fuel t nr o own ≡ done none
    → can_link nr o ≡ false
unfolding mesh_peer
mesh_peer-none fuel t nr o own h = ground (
  arith,
  linked-ne-none fuel t o own (first_v4 o) (routed_by_hidden t nr o),
  linked-ne-none fuel t o own [] [],
  linked-ne-none fuel t o own (first_v6 o) (routed_by_public t o),
)

-- The peers hold the link to a node.
pub record HasLink (ext : Dict (List IpRange)) (nr o : NetResource) (ps : List WireguardPeer)
    : Type 0 where
  pub peer : WireguardPeer
  pub among : Among peer ps
  pub is_link : IsLink ext nr o peer

pub All-add_peer :
    (P : WireguardPeer → Type 0) (p : Option WireguardPeer) (rest : List WireguardPeer)
    → ((q : WireguardPeer) → p ≡ some q → P q)
    → All P rest
    → All P (add_peer p rest)
All-add_peer P none rest h k = k
All-add_peer P (some q) rest h k = (h q refl, k)

pub Among-add_peer :
    (p : Option WireguardPeer) (rest : List WireguardPeer) {q : WireguardPeer}
    → Among q rest
    → Among q (add_peer p rest)
Among-add_peer none rest k = k
Among-add_peer (some p) rest k = there p rest k
