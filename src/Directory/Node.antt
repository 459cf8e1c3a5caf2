-- ===== src/Directory/Node.antt =====
-- pkg/directory/types/node.go: the validation, the creation and the updates of nodes.
use tfexplorer.Base.{ℕ, Bool, false, not, Option, none, some, List, [], ◌==◌, ◌&&◌}
use tfexplorer.Base.Text.{Text, is_empty, text_eq}
use tfexplorer.Base.Hex.{decode_string}
use tfexplorer.Models.Directory.{
  ResourceAmount, WorkloadAmount, Proof, Iface, PublicIface, Node, Farm, Location, is_no_location,
}
use tfexplorer.Program.{pure, fail, ask, ask_total, guard, derive_total, write, ◌>>=◌, ◌>>◌}
use tfexplorer.Directory.Outside.{
  Exec, Change, total_resources, reserved_resources, used_resources, workloads, uptime, ifaces,
  public_config, free_to_use, wg_ports, upsert_node, set_node, push_proof, directory_store, Lookup,
  found, no_documents, db_error,
}
use tfexplorer.Directory.Filters.{with_node_id, with_farm}

-- The errors that the handlers tell apart.
pub data DirectoryError : Type 0 where
  no_such_document other_error : DirectoryError

-- The node ID is the public key in base 58.
abbrev matches : (Text → Text) → Text → Option Text → Bool
matches base58_encode node_id none = false
matches base58_encode node_id (some pk) = text_eq node_id (base58_encode pk)

-- What Node.Validate and Gateway.Validate check alike.
unfoldable pub is_identified : (Text → Text) → Text → Text → Text → Location → Bool
is_identified base58_encode node_id os_version public_key_hex location =
    not (is_empty node_id)
    && not (is_empty os_version)
    && not (is_empty public_key_hex)
    && matches base58_encode node_id (decode_string public_key_hex)
    && not (is_no_location location)

-- Node.Validate: `true` is a nil error.
unfoldable pub validate_node : (Text → Text) → Node → Bool
unfolding is_identified
validate_node base58_encode n =
    not (n.farm_id == 0)
    && is_identified base58_encode n.node_id n.os_version n.public_key_hex n.location

abbrev pub farm_exists : Lookup Farm → Exec DirectoryError (Unit {0})
farm_exists (found f) = pure tt
farm_exists no_documents = fail no_such_document
farm_exists db_error = fail other_error

-- The node with the ID and the times of the document that it replaces, or of a new one.
abbrev pub identity : Node → Option Node → Exec DirectoryError Node
identity node none = do
  id ← ask other_error (λ env w. env.next_id w)
  now ← ask_total (λ env w. env.now w)
  pure (record node { id = id; created = now })
identity node (some current) =
    pure (record node {
      id = current.id;
      created = current.created;
      free_to_use = current.free_to_use;
    })

-- NodeCreate. A node without proofs is given an empty list of them, which is the same list here.
unfoldable pub node_create : Node → Exec DirectoryError ℕ
node_create node = do
  valid ← derive_total (λ env. validate_node env.base58_encode node)
  guard other_error valid
  farm ← ask_total (λ env w. env.find_farm w (with_farm [] node.farm_id))
  farm_exists farm
  current ← ask_total (λ env w. env.find_node w (with_node_id [] node.node_id) false)
  node' ← identity node current
  now ← ask_total (λ env w. env.now w)
  write other_error (upsert_node (with_node_id [] node.node_id) (record node' { updated = now }))
  pure node'.id

-- nodeUpdate
unfoldable pub node_update : Text → Change → Exec DirectoryError (Unit {0})
node_update node_id value = do
  guard other_error (not (is_empty node_id))
  write other_error (set_node (with_node_id [] node_id) value)

unfoldable pub node_update_total_resources : Text → ResourceAmount → Exec DirectoryError (Unit {0})
unfolding node_update
node_update_total_resources node_id capacity = node_update node_id (total_resources capacity)

unfoldable pub node_update_reserved_resources :
    Text → ResourceAmount → Exec DirectoryError (Unit {0})
unfolding node_update
node_update_reserved_resources node_id capacity = node_update node_id (reserved_resources capacity)

unfoldable pub node_update_used_resources : Text → ResourceAmount → Exec DirectoryError (Unit {0})
unfolding node_update
node_update_used_resources node_id capacity = node_update node_id (used_resources capacity)

unfoldable pub node_update_workloads_amount : Text → WorkloadAmount → Exec DirectoryError (Unit {0})
unfolding node_update
node_update_workloads_amount node_id amount = node_update node_id (workloads amount)

unfoldable pub node_update_uptime : Text → ℕ → Exec DirectoryError (Unit {0})
unfolding node_update
node_update_uptime node_id seconds = do
  now ← ask_total (λ env w. env.now w)
  node_update node_id (uptime seconds now)

unfoldable pub node_set_interfaces : Text → List Iface → Exec DirectoryError (Unit {0})
unfolding node_update
node_set_interfaces node_id list = node_update node_id (ifaces list)

unfoldable pub node_set_public_config : Text → PublicIface → Exec DirectoryError (Unit {0})
unfolding node_update
node_set_public_config node_id cfg = node_update node_id (public_config cfg)

unfoldable pub node_update_free_to_use : Text → Bool → Exec DirectoryError (Unit {0})
unfolding node_update
node_update_free_to_use node_id free = node_update node_id (free_to_use free)

unfoldable pub node_set_wg_ports : Text → List ℕ → Exec DirectoryError (Unit {0})
unfolding node_update
node_set_wg_ports node_id ports = node_update node_id (wg_ports ports)

unfoldable pub node_push_proof : Text → Proof → Exec DirectoryError (Unit {0})
node_push_proof node_id proof = do
  guard other_error (not (is_empty node_id))
  write other_error (push_proof (with_node_id [] node_id) proof)
