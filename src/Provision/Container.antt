-- ===== src/Provision/Container.antt =====
-- provision/builders/containerBuilder.go.
pub mod Built
use tfexplorer.Base.{ℕ, suc, Bool, false, Option, none, some, List, [], ◌∷◌, if◌then◌else◌}
use tfexplorer.Base.Text.{Text, codes, is_empty}
use tfexplorer.Models.Workloads.{
  Container, ContainerMount, ContainerCapacity, NetworkConnection, StatsAggregator, Logs,
}
use tfexplorer.Provision.Dict.{Dict, put}
use tfexplorer.Provision.Secret.{SecretEnv, encrypt_secret}

unfoldable pub new_container : Text → Text → List NetworkConnection → Container
new_container id flist network = record {
  workload_id = 0;
  node_id = id;
  flist = flist;
  hub_url = codes "zdb://hub.grid.tf:9900";
  environment = [];
  secret_environment = [];
  entrypoint = [];
  interactive = false;
  volumes = [];
  network_connection = network;
  stats_aggregator = [];
  logs = [];
  farmer_tid = 0;
  capacity = record { cpu = 1; memory = 512 };
}

-- The loop of Build over the environment. Its keys are different, so that the order in which Go
-- goes through them does not matter.
unfoldable pub encrypt_all : SecretEnv → ℕ → Text → Dict Text → Dict Text → Option (Dict Text)
unfolding put encrypt_secret
encrypt_all env n id [] secrets = some secrets
encrypt_all env n id ((k, value) ∷ rest) secrets = elim (encrypt_secret env n value id) [
  | none ↦ none
  | some secret ↦ encrypt_all env (suc n) id rest (put k secret secrets)
]

abbrev with_secrets : Container → Option (Dict Text) → Option Container
with_secrets c none = none
with_secrets c (some secrets) = some (record c { environment = []; secret_environment = secrets })

-- ContainerBuilder.Build; `none` is its error.
unfoldable pub build_container : SecretEnv → Container → Option Container
unfolding encrypt_all
build_container env c =
    if is_empty c.flist
    then none
    else with_secrets c (encrypt_all env 0 c.node_id c.environment c.secret_environment)

unfoldable pub with_node_id : Container → Text → Container
with_node_id c x = record c { node_id = x }

unfoldable pub with_flist : Container → Text → Container
with_flist c x = record c { flist = x }

unfoldable pub with_network : Container → List NetworkConnection → Container
with_network c x = record c { network_connection = x }

unfoldable pub with_interactive : Container → Bool → Container
with_interactive c x = record c { interactive = x }

unfoldable pub with_hub_url : Container → Text → Container
with_hub_url c x = record c { hub_url = x }

unfoldable pub with_envs : Container → Dict Text → Container
with_envs c x = record c { environment = x }

unfoldable pub with_secret_envs : Container → Dict Text → Container
with_secret_envs c x = record c { secret_environment = x }

unfoldable pub with_entrypoint : Container → Text → Container
with_entrypoint c x = record c { entrypoint = x }

unfoldable pub with_volumes : Container → List ContainerMount → Container
with_volumes c x = record c { volumes = x }

unfoldable pub with_stats_aggregator : Container → List StatsAggregator → Container
with_stats_aggregator c x = record c { stats_aggregator = x }

unfoldable pub with_logs : Container → List Logs → Container
with_logs c x = record c { logs = x }

unfoldable pub with_container_capacity : Container → ContainerCapacity → Container
with_container_capacity c x = record c { capacity = x }
