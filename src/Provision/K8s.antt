-- ===== src/Provision/K8s.antt =====
-- provision/builders/k8sBuilder.go.
use tfexplorer.Base.{ℕ, List, []}
use tfexplorer.Base.Text.{Text}
use tfexplorer.Models.Workloads.{K8s, StatsAggregator}

unfoldable pub new_k8s : Text → Text → Text → ℕ → List ℕ → K8s
new_k8s id network secret size ip = record {
  workload_id = 0;
  node_id = id;
  size = size;
  network_id = network;
  ipaddress = ip;
  cluster_secret = secret;
  master_ips = [];
  ssh_keys = [];
  stats_aggregator = [];
  farmer_tid = 0;
}

unfoldable pub with_node_id : K8s → Text → K8s
with_node_id k x = record k { node_id = x }

unfoldable pub with_size : K8s → ℕ → K8s
with_size k x = record k { size = x }

unfoldable pub with_network_id : K8s → Text → K8s
with_network_id k x = record k { network_id = x }

unfoldable pub with_ip_address : K8s → List ℕ → K8s
with_ip_address k x = record k { ipaddress = x }

unfoldable pub with_cluster_secret : K8s → Text → K8s
with_cluster_secret k x = record k { cluster_secret = x }

unfoldable pub with_master_ips : K8s → List (List ℕ) → K8s
with_master_ips k x = record k { master_ips = x }

unfoldable pub with_ssh_keys : K8s → List Text → K8s
with_ssh_keys k x = record k { ssh_keys = x }

unfoldable pub with_stats_aggregator : K8s → List StatsAggregator → K8s
with_stats_aggregator k x = record k { stats_aggregator = x }
