-- ===== src/Provision/Peers/Others.antt =====
-- The links of a node to the others in generatePeers of provision/builders/networkBuilder.go.
use tfexplorer.Base.{
  ℕ, ◌≡◌, ◌∙◌, refl, ap, inl, inr, true, false, Option, none, some, List, [], ◌∷◌, arith, All,
  Among, here, there, Bool-cases,
}
use tfexplorer.Base.Text.{text_eq}
use tfexplorer.Models.Workloads.{WireguardPeer}
use tfexplorer.Program.{done}
use tfexplorer.Provision.Network.{NetResource, NetworkBuilder, >>=-eq-done}
use tfexplorer.Provision.Tables.{Tables}
use tfexplorer.Provision.Peers.{with_link, peer_for, peers_for, add_peer}
use tfexplorer.Provision.Peers.Links.{
  IsLink, Source, link, NoRoute, mesh_peer-IsLink, can_link, mesh_peer-none, HasLink, All-add_peer,
  Among-add_peer,
}

module _ (fuel : ℕ) (n : NetworkBuilder) (t : Tables) (nr : NetResource) (route : NoRoute t nr)
    (own : t.own_id ≡ n.node_id) where
  peer_for-IsLink :
      (o : NetResource) {p : WireguardPeer}
      → peer_for fuel t nr o ≡ done (some p)
      → (text_eq n.node_id o.resource.node_id ≡ false) × IsLink t.external nr o p
  unfolding peer_for
  peer_for-IsLink o h = elim (Bool-cases (text_eq t.own_id o.resource.node_id)) [
    | inl e ↦ ground arith
    | inr e ↦
        let (range, er, h') = >>=-eq-done (with_link o.resource.iprange) _ (rw e at h) in
        (rw (← own) e, mesh_peer-IsLink fuel t nr o range route e er h')
  ]

  peers_for-cons :
      (o : NetResource) (os : List NetResource) {ps : List WireguardPeer}
      → peers_for fuel t nr (o ∷ os) ≡ done ps
      → (p : Option WireguardPeer) × (rest : List WireguardPeer) × (ps ≡ add_peer p rest)
        × (peer_for fuel t nr o ≡ done p)
        × (peers_for fuel t nr os ≡ done rest)
  unfolding peers_for
  peers_for-cons o os h =
      let (p, ep, h') = >>=-eq-done (peer_for fuel t nr o) _ h in
      let (rest, er, h'') = >>=-eq-done (peers_for fuel t nr os) _ h' in (p, rest, cc, ep, er)

  pub peers_for-Source :
      (os : List NetResource) {ps : List WireguardPeer}
      → ((o : NetResource) → Among o os → Among o n.net_resources)
      → peers_for fuel t nr os ≡ done ps
      → All (Source n t.external nr) ps
  unfolding peers_for
  peers_for-Source [] {ps} sub h = let e : ps ≡ [] = cc in rw e tt
  peers_for-Source (o ∷ os) {ps} sub h =
      let (p, rest, e, ep, er) = peers_for-cons o os h in
      rw e (
        All-add_peer (Source n t.external nr) p rest
          (λ q eq.
            let (other, is_link) = peer_for-IsLink o (ep ∙ ap done eq) in
            link o q (sub o (here os)) other is_link)
          (peers_for-Source os (λ o' k. sub o' (there o os k)) er))

  -- Every other node that can be linked is.
  peer_for-some :
      (o : NetResource) (p : Option WireguardPeer)
      → text_eq n.node_id o.resource.node_id ≡ false
      → can_link nr o ≡ true
      → peer_for fuel t nr o ≡ done p
      → (q : WireguardPeer) × (p ≡ some q) × IsLink t.external nr o q
  unfolding peer_for
  peer_for-some o (some q) other can h = (q, refl, (peer_for-IsLink o h).1)
  peer_for-some o none other can h =
      let e : text_eq t.own_id o.resource.node_id ≡ false = rw own other in
      let (range, er, h') = >>=-eq-done (with_link o.resource.iprange) _ (rw e at h) in
      absurd (cc (mesh_peer-none fuel t nr o range h'))

  pub peers_for-HasLink :
      (os : List NetResource) {ps : List WireguardPeer} {o : NetResource}
      → Among o os
      → peers_for fuel t nr os ≡ done ps
      → text_eq n.node_id o.resource.node_id ≡ false
      → can_link nr o ≡ true
      → HasLink t.external nr o ps
  peers_for-HasLink [] k h other can = elim k [ ]
  peers_for-HasLink (o ∷ os) (here _) h other can =
      let (p, rest, e, ep, er) = peers_for-cons o os h in
      let (q, eq, is_link) = peer_for-some o p other can ep in
      rw e (rw eq (record { peer = q; among = here rest; is_link = is_link }))
  peers_for-HasLink (o ∷ os) (there _ _ k) h other can =
      let (p, rest, e, ep, er) = peers_for-cons o os h in
      let found = peers_for-HasLink os k er other can in
      rw e (record {
        peer = found.peer;
        among = Among-add_peer p rest found.among;
        is_link = found.is_link;
      })
