-- ===== src/Provision/Volume.antt =====
-- provision/builders/volumeBuilder.go.
use tfexplorer.Base.{ℕ, []}
use tfexplorer.Base.Text.{Text}
use tfexplorer.Models.Workloads.{Volume, DiskType}

unfoldable pub new_volume : Text → ℕ → DiskType → Volume
new_volume id size kind = record {
  workload_id = 0;
  node_id = id;
  size = size;
  kind = kind;
  stats_aggregator = [];
  farmer_tid = 0;
}

unfoldable pub with_node_id : Volume → Text → Volume
with_node_id v x = record v { node_id = x }

unfoldable pub with_size : Volume → ℕ → Volume
with_size v x = record v { size = x }

unfoldable pub with_type : Volume → DiskType → Volume
with_type v x = record v { kind = x }
