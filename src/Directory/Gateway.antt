-- ===== src/Directory/Gateway.antt =====
-- pkg/directory/types/gateway.go: the validation, the creation and the updates of gateways.
use tfexplorer.Base.{ℕ, Bool, not, Option, none, some, []}
use tfexplorer.Base.Text.{Text, is_empty}
use tfexplorer.Models.Directory.{ResourceAmount, WorkloadAmount, Gateway}
use tfexplorer.Program.{pure, ask, ask_total, guard, derive_total, write, ◌>>=◌, ◌>>◌}
use tfexplorer.Directory.Outside.{
  Exec, Change, reserved_resources, workloads, uptime, upsert_gateway, set_gateway, directory_store,
}
use tfexplorer.Directory.Filters.{with_node_id}
use tfexplorer.Directory.Node.{DirectoryError, other_error, is_identified}

-- Gateway.Validate: `true` is a nil error.
unfoldable pub validate_gateway : (Text → Text) → Gateway → Bool
unfolding is_identified
validate_gateway base58_encode g =
    is_identified base58_encode g.node_id g.os_version g.public_key_hex g.location

abbrev gateway_identity : Gateway → Option Gateway → Exec DirectoryError Gateway
gateway_identity g none = do
  id ← ask other_error (λ env w. env.next_id w)
  now ← ask_total (λ env w. env.now w)
  pure (record g { id = id; created = now })
gateway_identity g (some current) = pure (record g { id = current.id; created = current.created })

-- GatewayCreate
unfoldable pub gateway_create : Gateway → Exec DirectoryError ℕ
gateway_create g = do
  valid ← derive_total (λ env. validate_gateway env.base58_encode g)
  guard other_error valid
  current ← ask_total (λ env w. env.find_gateway w (with_node_id [] g.node_id))
  g' ← gateway_identity g current
  now ← ask_total (λ env w. env.now w)
  write other_error (upsert_gateway (with_node_id [] g.node_id) (record g' { updated = now }))
  pure g'.id

-- gwUpdate
unfoldable pub gateway_update : Text → Change → Exec DirectoryError (Unit {0})
gateway_update node_id value = do
  guard other_error (not (is_empty node_id))
  write other_error (set_gateway (with_node_id [] node_id) value)

unfoldable pub gateway_update_reserved_resources :
    Text → ResourceAmount → Exec DirectoryError (Unit {0})
unfolding gateway_update
gateway_update_reserved_resources node_id capacity =
    gateway_update node_id (reserved_resources capacity)

unfoldable pub gateway_update_workloads_amount :
    Text → WorkloadAmount → Exec DirectoryError (Unit {0})
unfolding gateway_update
gateway_update_workloads_amount node_id amount = gateway_update node_id (workloads amount)

unfoldable pub gateway_update_uptime : Text → ℕ → Exec DirectoryError (Unit {0})
unfolding gateway_update
gateway_update_uptime node_id seconds = do
  now ← ask_total (λ env w. env.now w)
  gateway_update node_id (uptime seconds now)
