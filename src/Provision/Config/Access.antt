-- ===== src/Provision/Config/Access.antt =====
-- The configuration that AddAccess of provision/builders/networkBuilder.go returns.
use tfexplorer.Base.{
  ℕ, ◌≡◌, ◌∙◌, refl, sym, ap, inl, inr, Bool, true, false, ◌&&◌, not, some, List, [], ◌∷◌, ◌++◌,
  ◌==◌, arith, all, All, Among, here, there, Bool-cases, Option-cases, if◌then◌else◌,
}
use tfexplorer.Base.Text.{Text, text_eq, text_eq→≡, is_empty}
use tfexplorer.Base.Net.{is_to4, is_to16}
use tfexplorer.Models.Workloads.{IpRange}
use tfexplorer.Program.{done, failed}
use tfexplorer.Provision.Network.{
  NetResource, NetworkBuilder, NetworkError, Result, >>=-eq-done, eq_of_done,
}
use tfexplorer.Provision.Address.{wg_ip, wg_subnet, is_ipv4_subnet, format_range}
use tfexplorer.Provision.Peers.{generate_peers, endpoint_v4, endpoint_v6}
use tfexplorer.Provision.Left.{resources_left}
use tfexplorer.Provision.Nodes.{NetEnv, settle_peers}
use tfexplorer.Provision.Config.{
  escape_char, escape, concat, pieces, wg_tmpl, gen_wg_quick, find_node, first_ip, access_endpoint,
  access_node, access_key, access_point, grant, with_point, with_key, access_with, add_access,
}

abbrev no_plus : ℕ → Bool
no_plus c = not (c == b'+')

all-append : (p : ℕ → Bool) (s t : Text) → all p s ≡ true → all p t ≡ true → all p (s ++ t) ≡ true
all-append p [] t h k = k
all-append p (c ∷ s) t h k = ground (arith, all-append p s t)

escape-no_plus : (s : Text) → all no_plus (escape s) ≡ true
unfolding escape escape_char
escape-no_plus [] = refl
escape-no_plus (c ∷ s) =
    all-append no_plus (escape_char c) (escape s) (ground arith) (escape-no_plus s)

concat-no_plus :
    (ss : List Text) → All (λ s. all no_plus s ≡ true) ss → all no_plus (concat ss) ≡ true
unfolding concat
concat-no_plus [] h = refl
concat-no_plus (s ∷ ss) h = all-append no_plus s (concat ss) h.0 (concat-no_plus ss h.1)

wg_tmpl-no_plus :
    (private_key address peer_key subnets endpoint : Text)
    → all no_plus (wg_tmpl private_key address peer_key subnets endpoint) ≡ true
unfolding wg_tmpl
wg_tmpl-no_plus private_key address peer_key subnets endpoint =
    concat-no_plus (pieces private_key address peer_key subnets endpoint) (
      refl,
      (
        refl,
        (
          escape-no_plus private_key,
          (
            refl,
            (
              escape-no_plus address,
              (
                refl,
                (
                  refl,
                  (
                    escape-no_plus peer_key,
                    (
                      refl,
                      (
                        escape-no_plus subnets,
                        (refl, (ground arith, (escape-no_plus endpoint, (refl, tt)))),
                      ),
                    ),
                  ),
                ),
              ),
            ),
          ),
        ),
      ),
    )

-- No configuration has a plus sign, whatever the keys are: html/template writes "&#43;" for it, so
-- a key in base64 with a plus sign is not there as WireGuard reads it.
pub gen_wg_quick-no_plus :
    (env : NetEnv) (private_key : Text) (local : IpRange) (peer_key : Text) (allowed : IpRange)
    (endpoint : Text) {conf : Text}
    → gen_wg_quick env private_key local peer_key allowed endpoint ≡ done conf
    → all (λ c. not (c == b'+')) conf ≡ true
unfolding gen_wg_quick
gen_wg_quick-no_plus env private_key local peer_key allowed endpoint h =
    let (_, _, h1) =
      >>=-eq-done {A = Unit {0}}
        (if not (is_ipv4_subnet local) then failed NetworkError.bad_local_subnet else done tt) _
        h in
    let (address, _, h2) = >>=-eq-done (wg_ip local) _ h1 in
    let (subnet, _, h3) = >>=-eq-done (wg_subnet allowed) _ h2 in
    rw (sym (eq_of_done h3)) (
      wg_tmpl-no_plus private_key (format_range address) peer_key
        (format_range allowed ++ (b',' ∷ env.subnet_text subnet)) endpoint)

-- The node through which the access goes, and its public address of the requested family.
pub record IsGranted (env : NetEnv) (n : NetworkBuilder) (id : Text) (subnet : IpRange) (ip4 : Bool)
    (conf : Text) : Type 0 where
  pub node : NetResource
  pub among : Among node n.net_resources
  pub named : node.resource.node_id ≡ id
  pub address : List ℕ
  pub address_among : Among address node.pub_endpoints
  pub family : is_to4 address ≡ ip4
  pub endpoint : Text
  pub endpoint_lem : endpoint ≡ (
      if ip4
      then endpoint_v4 address node.resource.wireguard_listen_port
      else endpoint_v6 (first_ip node.pub_endpoints) node.resource.wireguard_listen_port)
  pub config :
      gen_wg_quick env env.zero_key subnet node.resource.wireguard_public_key n.network.iprange
        endpoint
      ≡ done conf

-- What AddAccess has looked for in the public addresses.
module _ (nr : NetResource) where
  abbrev Chosen : Bool → List (List ℕ) → Type 0
  Chosen ip4 eps =
      (ep : List ℕ) × Among ep eps
      × (is_to4 ep ≡ ip4)
      × (access_endpoint ip4 nr eps ≡ (
          if ip4
          then endpoint_v4 ep nr.resource.wireguard_listen_port
          else endpoint_v6 (first_ip nr.pub_endpoints) nr.resource.wireguard_listen_port))

  access_endpoint-Chosen :
      (ip4 : Bool) (eps : List (List ℕ))
      → is_empty (access_endpoint ip4 nr eps) ≡ false
      → Chosen ip4 eps
  unfolding access_endpoint
  access_endpoint-Chosen ip4 [] h = absurd (cc h)
  access_endpoint-Chosen true (ep ∷ eps) h = elim (Bool-cases (is_to4 ep)) [
    | inl e ↦ (ep, here eps, e, rw e)
    | inr e ↦
        let (ep', k, f, t) = access_endpoint-Chosen true eps (ground arith) in
        (ep', there ep eps k, f, ground arith)
  ]
  access_endpoint-Chosen false (ep ∷ eps) h = elim (Bool-cases (not (is_to4 ep) && is_to16 ep)) [
    | inl e ↦ (ep, here eps, ground arith, ground arith)
    | inr e ↦
        let (ep', k, f, t) = access_endpoint-Chosen false eps (ground arith) in
        (ep', there ep eps k, f, ground arith)
  ]

find_node-Among :
    (id : Text) (nrs : List NetResource) {nr : NetResource}
    → find_node id nrs ≡ some nr
    → Among nr nrs × (nr.resource.node_id ≡ id)
unfolding find_node
find_node-Among id [] h = ground arith
find_node-Among id (x ∷ nrs) {nr} h = elim (Bool-cases (text_eq x.resource.node_id id)) [
  | inl e ↦
      let same : x ≡ nr = ground arith in rw (← same) (here nrs, text_eq→≡ x.resource.node_id id e)
  | inr e ↦ let (k, named) = find_node-Among id nrs (rw e at h) in (there x nrs k, named)
]

-- What has been tested when the access node is found.
access_node-done :
    (n : NetworkBuilder) (id : Text) (ip4 : Bool) {node : NetResource} {endpoint : Text}
    → access_node n id ip4 ≡ done (node, endpoint)
    → (find_node id n.net_resources ≡ some node)
      × (endpoint ≡ access_endpoint ip4 node node.pub_endpoints)
      × (is_empty endpoint ≡ false)
unfolding access_node
access_node-done n id ip4 {node} {endpoint} h = elim (Bool-cases (is_empty id)) [
  | inl e ↦ absurd (ground arith)
  | inr named ↦ elim (Option-cases (find_node id n.net_resources)) [
    | inl e ↦ absurd (ground arith)
    | inr (found, e) ↦
        let same : found ≡ node = ground arith in (e ∙ ap some same, ground arith, ground arith)
  ]
]

settle_peers-done :
    {A : Type 0} (n : NetworkBuilder) (left : List NetResource) (r : Result (List NetResource))
    (answer : Result A) {a : A}
    → (settle_peers n left r answer).1 ≡ done a
    → answer ≡ done a
settle_peers-done n left (done nrs) answer h = h
settle_peers-done n left (failed e) answer h = cc

module _ (env : NetEnv) (fuel : ℕ) (n : NetworkBuilder) (id : Text) (subnet : IpRange) (key : Text)
    (ip4 : Bool) where
  with_key-config :
      (node : NetResource) (endpoint : Text) (k : Result Text) {conf : Text}
      → (with_key env fuel n (λ key'. access_point id subnet key' ip4) node endpoint k).1
        ≡ done conf
      → gen_wg_quick env env.zero_key subnet node.resource.wireguard_public_key n.network.iprange
          endpoint
        ≡ done conf
  unfolding grant
  with_key-config node endpoint (failed e) h = absurd (cc h)
  with_key-config node endpoint (done key') h =
      let n' = with_point n (access_point id subnet key' ip4) in
      settle_peers-done n' (resources_left fuel n') (generate_peers fuel n')
        (gen_wg_quick env env.zero_key subnet node.resource.wireguard_public_key n.network.iprange
          endpoint)
        h

  access_with-IsGranted :
      (found : Result (NetResource × Text)) {conf : Text}
      → access_node n id ip4 ≡ found
      → (access_with env fuel n id subnet key ip4 found).1 ≡ done conf
      → IsGranted env n id subnet ip4 conf
  unfolding grant
  access_with-IsGranted (failed e) found h = absurd (cc h)
  access_with-IsGranted (done (node, endpoint)) {conf} found h =
      let (there_is, text, given) = access_node-done n id ip4 found in
      let (k, named) = find_node-Among id n.net_resources there_is in
      let (ep, k', family, e) =
        access_endpoint-Chosen node ip4 node.pub_endpoints (ap is_empty (sym text) ∙ given) in
      record {
        node = node;
        among = k;
        named = named;
        address = ep;
        address_among = k';
        family = family;
        endpoint = endpoint;
        endpoint_lem = text ∙ e;
        config = with_key-config node endpoint (access_key env key) h;
      }

  -- A configuration that AddAccess returns is for a node of the network with the ID, and a public
  -- address of it of the requested family. An IPv6 endpoint is written with the first of the node's
  -- public addresses, whatever its family. The private key in it is the zero key, also where AddAccess has made
  -- a new key.
  pub add_access-IsGranted :
      {conf : Text}
      → (add_access env fuel n id subnet key ip4).1 ≡ done conf
      → IsGranted env n id subnet ip4 conf
  unfolding add_access
  add_access-IsGranted h = access_with-IsGranted (access_node n id ip4) refl h
