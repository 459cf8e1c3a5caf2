-- ===== src/Provision/Network.antt =====
-- provision/builders/networkBuilder.go: the state of a network builder, and its results.
use tfexplorer.Base.{ℕ, Bool, List, [], ◌≡◌, ◌≢◌, refl}
use tfexplorer.Base.Text.{Text}
use tfexplorer.Program.{Outcome, done, failed}
use tfexplorer.Models.Workloads.{IpRange, StatsAggregator, Network, NetworkNetResource}

-- The part of a network on one node, with the public addresses of the node.
pub record NetResource : Type 0 where
  pub resource : NetworkNetResource
  pub pub_endpoints : List (List ℕ)

pub record AccessPoint : Type 0 where
  pub node_id : Text
  pub subnet : IpRange
  pub wg_public_key : Text
  pub ip4 : Bool

pub record NetworkBuilder : Type 0 where
  pub network : Network
  pub node_id : Text
  pub access_points : List AccessPoint
  pub net_resources : List NetResource

-- The errors, an index out of range, and a loop of the model that ran out of fuel.
pub data NetworkError : Type 0 where
  empty_subnet invalid_subnet no_port no_key bad_node_id not_encrypted no_endpoints : NetworkError
  no_ipv4_node empty_node_id not_in_network hidden_access wrong_family bad_local_subnet :
      NetworkError
  bad_network not_opened not_saved panicked stuck : NetworkError

abbrev pub Result : Type 0 → Type 0
Result A = Outcome NetworkError A

infixl 5 ◌>>=◌ ◌>>◌
abbrev pub ◌>>=◌ : {A B : Type 0} → Result A → (A → Result B) → Result B
done a >>= f = f a
failed e >>= f = failed e

abbrev pub ◌>>◌ : {B : Type 0} → Result (Unit {0}) → Result B → Result B
m >> k = m >>= λ _. k

-- NewNetworkBuilder; the explorer's client is an argument of the methods that call it.
unfoldable pub new_network_builder : Text → IpRange → NetworkBuilder
new_network_builder name iprange = record {
  network = record {
    name = name;
    workload_id = 0;
    iprange = iprange;
    stats_aggregator = [];
    network_resources = [];
    farmer_tid = 0;
  };
  node_id = [];
  access_points = [];
  net_resources = [];
}

-- NetworkBuilder.Build
unfoldable pub build_network : NetworkBuilder → Network
build_network n = n.network

-- WithName
unfoldable pub with_network_name : NetworkBuilder → Text → NetworkBuilder
with_network_name n name =
    let network : Network = record n.network { name = name } in record n { network = network }

unfoldable pub with_ip_range : NetworkBuilder → IpRange → NetworkBuilder
with_ip_range n range =
    let network : Network = record n.network { iprange = range } in record n { network = network }

-- WithStatsAggregator
unfoldable pub with_network_stats : NetworkBuilder → List StatsAggregator → NetworkBuilder
with_network_stats n aggregators =
    let network : Network = record n.network { stats_aggregator = aggregators } in
    record n { network = network }

unfoldable pub with_network_resources : NetworkBuilder → List NetworkNetResource → NetworkBuilder
with_network_resources n resources =
    let network : Network = record n.network { network_resources = resources } in
    record n { network = network }

pub >>=-eq-done :
    {A B : Type 0} (m : Result A) (f : A → Result B) {b : B}
    → (m >>= f) ≡ done b
    → (a : A) × (m ≡ done a) × (f a ≡ done b)
>>=-eq-done (done a) f h = (a, refl, h)
>>=-eq-done (failed e) f h = cc

pub eq_of_done : {A : Type 0} {a b : A} → ◌≡◌ {A = Result A} (done a) (done b) → a ≡ b
eq_of_done h = cc

-- A part that does not run out of fuel.
abbrev pub Ends : {A : Type 0} → Result A → Type 0
Ends m = m ≢ failed stuck

pub >>=-Ends :
    {A B : Type 0} (m : Result A) (f : A → Result B)
    → Ends m
    → ((a : A) → m ≡ done a → Ends (f a))
    → Ends (m >>= f)
>>=-Ends (done a) f h k = k a refl
>>=-Ends (failed e) f h k = λ e'. h cc

pub done-Ends : {A : Type 0} (a : A) → Ends (done a)
done-Ends a = λ e. cc
