-- ===== src/Provision/Load/Kept.antt =====
-- What Save of provision/builders/networkBuilder.go keeps of what AddNode, AddAccess and RemoveNode
-- have done.
use tfexplorer.Base.{Among}
use tfexplorer.Base.{ℕ, ◌≡◌, ◌≢◌, ◌∙◌, refl, sym, ap, Bool, List, []}
use tfexplorer.Base.Text.{Text}
use tfexplorer.Models.Workloads.{IpRange}
use tfexplorer.Program.{done, failed}
use tfexplorer.Provision.Network.{
  NetResource, AccessPoint, NetworkBuilder, Result, build_network, >>=-eq-done, eq_of_done,
}
use tfexplorer.Provision.Peers.{generate_peers}
use tfexplorer.Provision.Left.{resources_left}
use tfexplorer.Provision.Nodes.{
  NetEnv, or_error, settle_peers, with_resource, attach, for_node, new_resource, add_node,
}
use tfexplorer.Provision.Config.{
  add_access, access_with, with_key, with_point, grant, access_node, access_key, access_point,
  gen_wg_quick, remove_node,
}
use tfexplorer.Provision.Config.Access.{add_access-IsGranted}
use tfexplorer.Provision.Load.{
  save_network, set_pub_endpoints, fetch_endpoints, hide_nodes, extract_access_points, extract_from,
  load_network_builder,
}

-- A builder and one on which methods that change the network have been called, failing or not.
pub data Edits (env : NetEnv) (fuel : ℕ) (n : NetworkBuilder) : NetworkBuilder → Type 0 where
  none_yet : Edits env fuel n n
  node_added :
      {m : NetworkBuilder} (id subnet : Text) (port : ℕ) (force_hidden : Bool)
      → Edits env fuel n m
      → Edits env fuel n (add_node env fuel m id subnet port force_hidden).0
  access_added :
      {m : NetworkBuilder} (id : Text) (subnet : IpRange) (key : Text) (ip4 : Bool)
      → Edits env fuel n m
      → Edits env fuel n (add_access env fuel m id subnet key ip4).0
  node_removed :
      {m : NetworkBuilder} (opened saved : Bool) (id : Text)
      → Edits env fuel n m
      → Edits env fuel n (remove_node opened saved m id).0

settle_peers-network :
    {A : Type 0} (n : NetworkBuilder) (left : List NetResource) (r : Result (List NetResource))
    (answer : Result A)
    → (settle_peers n left r answer).0.network ≡ n.network
settle_peers-network n left (done nrs) answer = refl
settle_peers-network n left (failed e) answer = refl

attach-network :
    (fuel : ℕ) (n : NetworkBuilder) (r : Result NetResource)
    → (attach fuel n r).0.network ≡ n.network
attach-network fuel n (failed e) = refl
attach-network fuel n (done nr) =
    settle_peers-network {A = Unit {0}} (with_resource n nr)
      (resources_left fuel (with_resource n nr)) (generate_peers fuel (with_resource n nr))
      (done tt)

with_key-network :
    (env : NetEnv) (fuel : ℕ) (n : NetworkBuilder) (point : Text → AccessPoint) (node : NetResource)
    (endpoint : Text) (k : Result Text)
    → (with_key env fuel n point node endpoint k).0.network ≡ n.network
unfolding grant
with_key-network env fuel n point node endpoint (failed e) = refl
with_key-network env fuel n point node endpoint (done key) =
    settle_peers-network (with_point n (point key)) (resources_left fuel (with_point n (point key)))
      (generate_peers fuel (with_point n (point key)))
      (gen_wg_quick env env.zero_key (point key).subnet node.resource.wireguard_public_key
        n.network.iprange endpoint)

access_with-network :
    (env : NetEnv) (fuel : ℕ) (n : NetworkBuilder) (id : Text) (subnet : IpRange) (key : Text)
    (ip4 : Bool) (found : Result (NetResource × Text))
    → (access_with env fuel n id subnet key ip4 found).0.network ≡ n.network
access_with-network env fuel n id subnet key ip4 (failed e) = refl
access_with-network env fuel n id subnet key ip4 (done (node, endpoint)) =
    with_key-network env fuel n (λ key'. access_point id subnet key' ip4) node endpoint
      (access_key env key)

-- However nodes and accesses are added and nodes removed, what Build returns and what Save writes
-- stay what they were: the network that is reserved gets none of the nodes.
pub Edits-build_network :
    {env : NetEnv} {fuel : ℕ} {n m : NetworkBuilder}
    → Edits env fuel n m
    → (build_network m ≡ build_network n) × (save_network env m ≡ save_network env n)
unfolding build_network save_network add_node add_access remove_node
Edits-build_network none_yet = (refl, refl)
Edits-build_network {env} {fuel} (node_added {m} id subnet port force_hidden edits) =
    let (e, _) = Edits-build_network edits in
    let kept =
      attach-network fuel (for_node m id)
        (new_resource env fuel (for_node m id) subnet port force_hidden)
      ∙ e in
    (kept, ap env.encode_network kept)
Edits-build_network {env} {fuel} (access_added {m} id subnet key ip4 edits) =
    let (e, _) = Edits-build_network edits in
    let kept = access_with-network env fuel m id subnet key ip4 (access_node m id ip4) ∙ e in
    (kept, ap env.encode_network kept)
Edits-build_network (node_removed opened saved id edits) = Edits-build_network edits

no_node : {nrs : List NetResource} {nr : NetResource} → nrs ≡ [] → ¬ Among nr nrs
no_node e k = elim (rw e at k) [ ]

-- A builder that is loaded, from whatever text, has no node and no access point, and AddAccess
-- fails on it.
pub load_network_builder-nil :
    (env : NetEnv) (text : Text) {n : NetworkBuilder}
    → load_network_builder env text ≡ done n
    → (n.net_resources ≡ [])
      × (n.access_points ≡ [])
      × ((fuel : ℕ) (id : Text) (subnet : IpRange) (key : Text) (ip4 : Bool) (conf : Text)
          → (add_access env fuel n id subnet key ip4).1 ≢ done conf)
unfolding load_network_builder set_pub_endpoints fetch_endpoints hide_nodes extract_access_points
    extract_from
load_network_builder-nil env text {n} h =
    let (network, _, h') = >>=-eq-done (or_error _ (env.decode_network text)) _ h in
    let same = eq_of_done h' in
    (
      ap (λ m. m.net_resources) (sym same),
      ap (λ m. m.access_points) (sym same),
      λ fuel id subnet key ip4 conf d.
          no_node (ap (λ m. m.net_resources) (sym same))
            (add_access-IsGranted env fuel n id subnet key ip4 d).among,
    )
