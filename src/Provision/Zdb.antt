-- ===== src/Provision/Zdb.antt =====
-- provision/builders/zdbBuilder.go.
use tfexplorer.Base.{ℕ, Bool, false, Option, none, some, List, []}
use tfexplorer.Base.Text.{Text}
use tfexplorer.Models.Workloads.{Zdb, ZdbMode, DiskType, StatsAggregator}
use tfexplorer.Provision.Secret.{SecretEnv, encrypt_secret}

unfoldable pub new_zdb : Text → ℕ → ZdbMode → DiskType → Zdb
new_zdb id size mode disk_type = record {
  workload_id = 0;
  node_id = id;
  size = size;
  mode = mode;
  password = [];
  disk_type = disk_type;
  is_public = false;
  stats_aggregator = [];
  farmer_tid = 0;
}

abbrev with_encrypted : Zdb → Option Text → Option Zdb
with_encrypted z none = none
with_encrypted z (some encrypted) = some (record z { password = encrypted })

-- ZDBBuilder.Build, whose result is the builder's new document too; `none` is its error.
unfoldable pub build_zdb : SecretEnv → Zdb → Option Zdb
unfolding encrypt_secret
build_zdb env z = with_encrypted z (encrypt_secret env 0 z.password z.node_id)

unfoldable pub with_node_id : Zdb → Text → Zdb
with_node_id z x = record z { node_id = x }

unfoldable pub with_size : Zdb → ℕ → Zdb
with_size z x = record z { size = x }

unfoldable pub with_mode : Zdb → ZdbMode → Zdb
with_mode z x = record z { mode = x }

unfoldable pub with_password : Zdb → Text → Zdb
with_password z x = record z { password = x }

unfoldable pub with_disk_type : Zdb → DiskType → Zdb
with_disk_type z x = record z { disk_type = x }

unfoldable pub with_public : Zdb → Bool → Zdb
with_public z x = record z { is_public = x }

unfoldable pub with_stats_aggregator : Zdb → List StatsAggregator → Zdb
with_stats_aggregator z x = record z { stats_aggregator = x }
