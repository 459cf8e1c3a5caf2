-- ===== src/Examples/Grid.antt =====
-- Examples of the directory and of paging.
use tfexplorer.Base.{ℕ, true, false, none, some, List, [], ◌∷◌}
use tfexplorer.Base.Text.{codes}
use tfexplorer.Models.Directory.{
  macvlan, Location, Farm, ResourceAmount, WorkloadAmount, PublicIface, Node,
}
use tfexplorer.Program.{Log}
use tfexplorer.Program.Confined.{IsConfined, IsJustified}
use tfexplorer.Directory.Outside.{Env, Write, found}
use tfexplorer.Directory.Proofs.{Hardware}
use tfexplorer.Directory.Nodes.{
  requires_node, register_capacity, register_ifaces, register_ports, update_uptime,
  update_reserved_resources, register_node,
}
use tfexplorer.Directory.Nodes.Own.{IsOwn, node_reports-IsOwn}
use tfexplorer.Directory.Nodes.Registration.{IsRegistration, register_node-IsRegistration}
use tfexplorer.Directory.Farms.{update_farm}
use tfexplorer.Directory.Farms.Owner.{IsOwnersChange, update_farm-IsOwnersChange}

abbrev no_writes : Log Write
no_writes = record { writes = []; reads = 0 }

abbrev ghent : Location
ghent = record {
  city = codes "Ghent";
  country = codes "BE";
  continent = codes "EU";
  latitude = 0;
  longitude = 0;
}

abbrev amount : ResourceAmount
amount = record { cru = 4; mru = 0; hru = 0; sru = 0 }

abbrev amounts : WorkloadAmount
amounts = record {
  network = 1;
  volume = 0;
  zdb_namespace = 0;
  container = 0;
  k8s_vm = 0;
  proxy = 0;
  reverse_proxy = 0;
  subdomain = 0;
  delegate_domain = 0;
}

abbrev farm : Farm
farm = record {
  id = 3;
  threebot_id = 7;
  iyo_organization = [];
  name = codes "freefarm";
  wallet_addresses = record { asset = codes "TFT"; address = codes "G" } ∷ [];
  location = ghent;
  email = [];
  resource_prices = [];
  prefix_zero = record { ip = []; mask = [] };
}

-- The node ID is the text of the key's bytes.
abbrev pub n1 : Node
n1 = record {
  id = 5;
  node_id = codes "n1";
  node_id_v1 = [];
  farm_id = 3;
  os_version = codes "1";
  created = 10;
  updated = 10;
  uptime = 0;
  address = [];
  location = ghent;
  total_resources = amount;
  used_resources = amount;
  reserved_resources = amount;
  workloads = amounts;
  proofs = [];
  ifaces = [];
  public_config = none;
  free_to_use = true;
  approved = false;
  public_key_hex = codes "6e31";
  wg_ports = [];
}

abbrev ipv6 : ℕ → List ℕ
ipv6 last = 32 ∷ 1 ∷ 13 ∷ 184 ∷ 0 ∷ 0 ∷ 0 ∷ 0 ∷ 0 ∷ 0 ∷ 0 ∷ 0 ∷ 0 ∷ 0 ∷ 0 ∷ last ∷ []

abbrev iface : PublicIface
iface = record {
  master = codes "eth0";
  kind = macvlan;
  ipv4 = record { ip = 10 ∷ 0 ∷ 0 ∷ 2 ∷ []; mask = 255 ∷ 255 ∷ 255 ∷ 0 ∷ [] };
  ipv6 = record {
    ip = ipv6 2;
    mask = 255 ∷ 255 ∷ 255 ∷ 255 ∷ 255 ∷ 255 ∷ 255 ∷ 255 ∷ 0 ∷ 0 ∷ 0 ∷ 0 ∷ 0 ∷ 0 ∷ 0 ∷ 0 ∷ [];
  };
  gw4 = 10 ∷ 0 ∷ 0 ∷ 1 ∷ [];
  gw6 = ipv6 1;
  version = 0;
}

abbrev hardware : Hardware
hardware = record {
  sections = codes "[]";
  tooling = codes "{}";
  aggregator = codes "{}";
  environment = codes "{}";
  devices = codes "[]";
  tool = codes "{}";
  hypervisor = [];
}

-- A network on which addresses are not looked up, with the one farm and its one node.
abbrev env : Env
env = record {
  network = codes "debug";
  write_ok = λ w c. true;
  now = λ w. 20;
  next_id = λ w. some 6;
  find_node = λ w keys proofs. some n1;
  list_nodes = λ w keys proofs pager. some (n1 ∷ []);
  count_nodes = λ w keys. some 1;
  find_gateway = λ w keys. none;
  list_gateways = λ w keys pager. some [];
  count_gateways = λ w keys. some 0;
  find_farm = λ w keys. found farm;
  list_farms = λ w keys pager. some (farm ∷ []);
  count_farm_keys_in_nodes = λ w keys. some 1;
  account = λ client address. none;
  limit_is_positive = λ limit. false;
  base58_encode = λ bytes. bytes;
}

node_reports-IsOwn_example :
    IsConfined (IsOwn (codes "n1") (codes "n1")) (
      requires_node
        (codes "n1")
        (register_capacity (codes "n1") (codes "n1") (some (amount, hardware))))
    × IsConfined
        (IsOwn (codes "n1") (codes "n1"))
        (requires_node (codes "n1") (register_ifaces (codes "n1") (codes "n1") (some [])))
    × IsConfined
        (IsOwn (codes "n1") (codes "n1"))
        (requires_node (codes "n1") (register_ports (codes "n1") (codes "n1") (some (1 ∷ []))))
    × IsConfined
        (IsOwn (codes "n1") (codes "n1"))
        (requires_node (codes "n1") (update_uptime (codes "n1") (codes "n1") (some 60)))
    × IsConfined (IsOwn (codes "n1") (codes "n1")) (
        requires_node
          (codes "n1")
          (update_reserved_resources (codes "n1") (codes "n1") (some (amount, amounts))))
node_reports-IsOwn_example =
    node_reports-IsOwn (codes "n1") (codes "n1") (some (amount, hardware)) (some []) (some (1 ∷ []))
      (some 60) (some (amount, amounts))

update_farm-IsOwnersChange_example :
    IsJustified
      (IsOwnersChange env no_writes (codes "3") (codes "7") (some farm))
      (update_farm (codes "3") (codes "7") (some farm))
      env
      no_writes
update_farm-IsOwnersChange_example =
    update_farm-IsOwnersChange (codes "3") (codes "7") (some farm) env no_writes

register_node-IsRegistration_example :
    IsJustified (IsRegistration env no_writes (some n1)) (register_node (some n1)) env no_writes
register_node-IsRegistration_example = register_node-IsRegistration (some n1) env no_writes
