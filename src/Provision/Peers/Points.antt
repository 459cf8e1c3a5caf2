-- ===== src/Provision/Peers/Points.antt =====
-- The access points of a node in generatePeers of provision/builders/networkBuilder.go.
use tfexplorer.Base.{
  ◌≡◌, ◌∙◌, refl, sym, ap, inl, inr, List, [], ◌∷◌, ◌++◌, All, keep, Among, here, there, Bool-cases,
}
use tfexplorer.Base.Text.{Text, text_eq, text_eq→≡}
use tfexplorer.Models.Workloads.{IpRange, WireguardPeer}
use tfexplorer.Program.{done}
use tfexplorer.Provision.Dict.{Dict, put, get_or, get_or-put}
use tfexplorer.Provision.Network.{NetResource, AccessPoint, NetworkBuilder, >>=-eq-done, eq_of_done}
use tfexplorer.Provision.Address.{wg_ip}
use tfexplorer.Provision.Tables.{access_points_of}
use tfexplorer.Provision.Peers.{with_link, access_peers}
use mathlib.Core.List.{append-nil, append_assoc}
use tfexplorer.Provision.Peers.Links.{IsAccess, Source, access}

-- The table of access points has those of each node.
pub access_points_of-keep :
    (ps : List AccessPoint) (m : Dict (List AccessPoint)) (id : Text)
    → get_or (access_points_of ps m) id [] ≡ get_or m id [] ++ keep (λ a. text_eq a.node_id id) ps
unfolding access_points_of
access_points_of-keep [] m id = sym (append-nil (get_or m id []))
access_points_of-keep (p ∷ ps) m id =
    access_points_of-keep ps (put p.node_id (get_or m p.node_id [] ++ p ∷ []) m) id
    ∙ rw (get_or-put p.node_id id (get_or m p.node_id [] ++ p ∷ []) [] m)
        (elim (Bool-cases (text_eq p.node_id id)) [
          | inl e ↦
              let same : get_or m p.node_id [] ≡ get_or m id [] =
                ap (λ k. get_or m k []) (text_eq→≡ p.node_id id e) in
              rw (e, same) (append_assoc (get_or m id []) (p ∷ []) _)
          | inr e ↦ rw e refl
        ])

-- The peers hold the access point.
pub record HasAccess (id : Text) (a : AccessPoint) (ps : List WireguardPeer) : Type 0 where
  pub peer : WireguardPeer
  pub among : Among peer ps
  pub is_access : IsAccess id a peer

module _ (n : NetworkBuilder) (ext : Dict (List IpRange)) (nr : NetResource) where
  pub access_peers-Source :
      (eas : List AccessPoint) {ps : List WireguardPeer}
      → ((a : AccessPoint)
          → Among a eas
          → Among a n.access_points × (a.node_id ≡ nr.resource.node_id))
      → access_peers eas ≡ done ps
      → All (Source n ext nr) ps
  unfolding access_peers with_link
  access_peers-Source [] {ps} own h = let e : ps ≡ [] = cc in rw e tt
  access_peers-Source (ea ∷ eas) {ps} own h =
      let (allowed, el, h') = >>=-eq-done (with_link ea.subnet) _ h in
      let (wg, ewg, ep) = >>=-eq-done (wg_ip ea.subnet) _ el in
      let (rest, er, h'') = >>=-eq-done (access_peers eas) _ h' in
      let (among, node) = own ea (here eas) in
      rw (sym (eq_of_done h'')) (
        access ea _ among (record {
          node = node;
          key = refl;
          range = refl;
          endpoint = refl;
          link = wg;
          link_lem = ewg;
          routes = sym (eq_of_done ep);
        }),
        access_peers-Source eas (λ a k. own a (there ea eas k)) er,
      )

  pub access_peers-HasAccess :
      (eas : List AccessPoint) {ps : List WireguardPeer} {a : AccessPoint}
      → Among a eas
      → access_peers eas ≡ done ps
      → a.node_id ≡ nr.resource.node_id
      → HasAccess nr.resource.node_id a ps
  unfolding access_peers with_link
  access_peers-HasAccess [] k h e = elim k [ ]
  access_peers-HasAccess (ea ∷ eas) (here _) h e =
      let (allowed, el, h') = >>=-eq-done (with_link ea.subnet) _ h in
      let (wg, ewg, ep) = >>=-eq-done (wg_ip ea.subnet) _ el in
      let (rest, er, h'') = >>=-eq-done (access_peers eas) _ h' in
      rw (sym (eq_of_done h'')) (record {
        peer = _;
        among = here rest;
        is_access = record {
          node = e;
          key = refl;
          range = refl;
          endpoint = refl;
          link = wg;
          link_lem = ewg;
          routes = sym (eq_of_done ep);
        };
      })
  access_peers-HasAccess (ea ∷ eas) (there _ _ k) h e =
      let (allowed, el, h') = >>=-eq-done (with_link ea.subnet) _ h in
      let (wg, ewg, ep) = >>=-eq-done (wg_ip ea.subnet) _ el in
      let (rest, er, h'') = >>=-eq-done (access_peers eas) _ h' in
      let found = access_peers-HasAccess eas k er e in
      rw (sym (eq_of_done h'')) (record {
        peer = found.peer;
        among = there _ rest found.among;
        is_access = found.is_access;
      })
