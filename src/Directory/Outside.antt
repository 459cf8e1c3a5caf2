-- ===== src/Directory/Outside.antt =====
-- What the directory asks of the database and of the packages base58 and horizonclient, and what it
-- writes.
use tfexplorer.Base.{ℕ, Bool, Option, List}
use tfexplorer.Base.Text.{Text}
use tfexplorer.Models.Directory.{
  ResourceAmount, WorkloadAmount, Proof, Iface, PublicIface, Node, Gateway, Farm,
}
use tfexplorer.Models.Paging.{Pager}
use tfexplorer.Program.{Log, Program, Store}
use tfexplorer.Stellar.Validation.{Balance, HorizonClient}
pub use tfexplorer.Program.{Lookup, found, no_documents, db_error}

-- A condition of a types.NodeFilter or types.GatewayFilter.
pub data NodeKey : Type 0 where
  id_is : ℕ → NodeKey
  node_id_is : Text → NodeKey
  node_id_in : List Text → NodeKey
  farm_id_is : ℕ → NodeKey
  cru_at_least mru_at_least hru_at_least sru_at_least : ℕ → NodeKey
  country_is city_is : Text → NodeKey
  free_to_use_is : Bool → NodeKey

-- A condition of a types.FarmFilter.
pub data FarmKey : Type 0 where
  farm_is : ℕ → FarmKey
  name_is : Text → FarmKey
  owner_is : ℕ → FarmKey

-- What an update of a node or a gateway sets: fields of the document.
pub data Change : Type 0 where
  total_resources reserved_resources used_resources : ResourceAmount → Change
  workloads : WorkloadAmount → Change
  uptime : ℕ → ℕ → Change
  ifaces : List Iface → Change
  public_config : PublicIface → Change
  free_to_use : Bool → Change
  wg_ports : List ℕ → Change

-- The writes. An upsert of a node leaves its public_config where the new document has none.
pub data Write : Type 0 where
  upsert_node : List NodeKey → Node → Write
  set_node : List NodeKey → Change → Write
  push_proof : List NodeKey → Proof → Write
  upsert_gateway : List NodeKey → Gateway → Write
  set_gateway : List NodeKey → Change → Write
  insert_farm : Farm → Write
  set_farm : List FarmKey → Farm → Write

-- `none` is an error of the call. `find_node` and `list_nodes` are told whether to include proofs.
pub record Env : Type 0 where
  pub network : Text
  pub write_ok : Log Write → Write → Bool
  pub now : Log Write → ℕ
  pub next_id : Log Write → Option ℕ
  pub find_node : Log Write → List NodeKey → Bool → Option Node
  pub list_nodes : Log Write → List NodeKey → Bool → Pager → Option (List Node)
  pub count_nodes : Log Write → List NodeKey → Option ℕ
  pub find_gateway : Log Write → List NodeKey → Option Gateway
  pub list_gateways : Log Write → List NodeKey → Pager → Option (List Gateway)
  pub count_gateways : Log Write → List NodeKey → Option ℕ
  pub find_farm : Log Write → List FarmKey → Lookup Farm
  pub list_farms : Log Write → List FarmKey → Pager → Option (List Farm)
  pub count_farm_keys_in_nodes : Log Write → List FarmKey → Option ℕ
  pub account : HorizonClient → Text → Option (List Balance)
  pub limit_is_positive : Text → Bool
  pub base58_encode : Text → Text

instance abbrev pub directory_store : Store Env Write
directory_store = record { write_ok = λ env w c. env.write_ok w c }

abbrev pub Exec : Type 0 → Type 0 → Type 0
Exec E A = Program Env Write E A
