-- ===== src/Directory/Nodes.antt =====
-- pkg/directory/nodes_store.go and pkg/directory/node_handlers.go: the handlers of nodes.
pub mod Own
pub mod Farmer
pub mod Registration
use tfexplorer.Base.{
  ℕ, suc, Bool, false, true, not, Option, none, some, List, [], ◌∷◌, ◌==◌, if◌then◌else◌, ◌&&◌,
}
use tfexplorer.Base.Int64.{add, slt}
use tfexplorer.Base.Text.{Text, codes, text_eq}
use tfexplorer.Base.Decimal.{parse_int}
use tfexplorer.Models.Directory.{ResourceAmount, WorkloadAmount, Iface, PublicIface, Node, Farm}
use tfexplorer.Models.Paging.{Pager, page_from_request, query_int}
use tfexplorer.Mw.{Status, bad_request, not_found, forbidden, internal, Success, ok, created}
use tfexplorer.Program.{
  pure, fail, ask, ask_total, or_fail, guard, map_error, recover, document, ◌>>=◌, ◌>>◌,
}
use tfexplorer.Directory.Outside.{Env, Exec, NodeKey}
use tfexplorer.Directory.Filters.{
  with_node_id, with_farm_id, with_total_cap, with_location, with_farm,
}
use tfexplorer.Directory.Node.{
  DirectoryError, no_such_document, other_error, node_create, node_update_total_resources,
  node_update_reserved_resources, node_update_workloads_amount, node_update_uptime,
  node_set_interfaces, node_set_public_config, node_update_free_to_use, node_set_wg_ports,
}
use tfexplorer.Directory.PublicConfig.{validate_public_iface}
use tfexplorer.Directory.Proofs.{Hardware, store_proof}

pub record NodeQuery : Type 0 where
  pub farm_id : ℕ
  pub country : Text
  pub city : Text
  pub cru : ℕ
  pub mru : ℕ
  pub sru : ℕ
  pub hru : ℕ
  pub proofs : Bool

-- The query parameters of a request, empty where they are missing.
pub record NodeParameters : Type 0 where
  pub farm : Text
  pub country : Text
  pub city : Text
  pub cru : Text
  pub mru : Text
  pub sru : Text
  pub hru : Text
  pub proofs : Text
  pub page : Text
  pub size : Text

-- nodeQuery.Parse
unfoldable pub parse_node_query : NodeParameters → Exec Status NodeQuery
parse_node_query p = do
  farm_id ← or_fail bad_request (query_int p.farm)
  cru ← or_fail bad_request (query_int p.cru)
  mru ← or_fail bad_request (query_int p.mru)
  sru ← or_fail bad_request (query_int p.sru)
  hru ← or_fail bad_request (query_int p.hru)
  pure (record {
    farm_id = farm_id;
    country = p.country;
    city = p.city;
    cru = cru;
    mru = mru;
    sru = sru;
    hru = hru;
    proofs = text_eq p.proofs (codes "true");
  })

-- The filter of NodeAPI.List.
unfoldable pub filter_of : NodeQuery → List NodeKey
filter_of q =
    let of_farm = if slt 0 q.farm_id then with_farm_id [] q.farm_id else [] in
    with_location (with_total_cap of_farm q.cru q.mru q.hru q.sru) q.country q.city

-- NodeAPI.List: a page of the nodes, and how many there are on all pages.
unfoldable pub nodes_page : NodeQuery → Pager → Exec Status (List Node × ℕ)
unfolding filter_of
nodes_page q pager = do
  nodes ← ask internal (λ env w. env.list_nodes w (filter_of q) q.proofs pager)
  total ← ask internal (λ env w. env.count_nodes w (filter_of q))
  pure (nodes, total)

-- NodeAPI.listNodes, whose answer has the number of pages in its header.
unfoldable pub list_nodes_handler : NodeParameters → Exec Status (List Node × ℕ)
list_nodes_handler p = do q ← parse_node_query p; nodes_page q (page_from_request p.page p.size)

-- NodeAPI.Get with the status for its error.
unfoldable pub get_node : Status → Text → Bool → Exec Status Node
get_node e node_id proofs = ask e (λ env w. env.find_node w (with_node_id [] node_id) proofs)

-- NodeAPI.nodeDetail
unfoldable pub node_detail : Text → NodeParameters → Exec Status Node
node_detail node_id p = do q ← parse_node_query p; get_node not_found node_id q.proofs

-- NodeAPI.Requires, with Exists, around a handler for a node.
unfoldable pub requires_node : {A : Type 0} → Text → Exec Status A → Exec Status A
requires_node node_id handler = do
  count ← ask internal (λ env w. env.count_nodes w (with_node_id [] node_id))
  guard not_found (slt 0 count)
  handler

-- The answer of registerNode for an error of NodeCreate.
unfoldable pub node_create_status : DirectoryError → Status
node_create_status no_such_document = not_found
node_create_status other_error = internal

-- NodeAPI.registerNode
unfoldable pub register_node : Option Node → Exec Status Success
register_node body = do
  n ← or_fail bad_request body
  id ← map_error node_create_status (node_create (record n { public_config = none }))
  pure created

abbrev pub answer : Status → DirectoryError → Status
answer s e = s

-- The handlers of what a node reports of itself. `key_id` names the key that signed the request.
unfoldable pub register_capacity :
    Text → Text → Option (ResourceAmount × Hardware) → Exec Status Success
register_capacity node_id key_id body = do
  x ← or_fail bad_request body
  guard forbidden (text_eq node_id key_id)
  map_error (answer not_found) (node_update_total_resources node_id x.0)
  map_error (answer internal) (store_proof node_id x.1)
  pure ok

unfoldable pub register_ifaces : Text → Text → Option (List Iface) → Exec Status Success
register_ifaces node_id key_id body = do
  input ← or_fail bad_request body
  guard forbidden (text_eq node_id key_id)
  map_error (answer internal) (node_set_interfaces node_id input)
  pure created

unfoldable pub register_ports : Text → Text → Option (List ℕ) → Exec Status Success
register_ports node_id key_id body = do
  guard forbidden (text_eq node_id key_id)
  input ← or_fail bad_request body
  map_error (answer not_found) (node_set_wg_ports node_id input)
  pure ok

unfoldable pub update_uptime : Text → Text → Option ℕ → Exec Status Success
update_uptime node_id key_id body = do
  guard forbidden (text_eq node_id key_id)
  seconds ← or_fail bad_request body
  map_error (answer not_found) (node_update_uptime node_id seconds)
  pure ok

unfoldable pub update_reserved_resources :
    Text → Text → Option (ResourceAmount × WorkloadAmount) → Exec Status Success
update_reserved_resources node_id key_id body = do
  guard forbidden (text_eq node_id key_id)
  input ← or_fail bad_request body
  map_error (answer not_found) (node_update_reserved_resources node_id input.0)
  map_error (answer not_found) (node_update_workloads_amount node_id input.1)
  pure ok

-- farmOwner
unfoldable pub farm_owner : ℕ → Exec Status ℕ
farm_owner farm_id = do
  farm ← ask internal (λ env w. document (env.find_farm w (with_farm [] farm_id)))
  pure farm.threebot_id

-- isFarmerAuthorized
unfoldable pub is_farmer_authorized : Text → Node → Exec Status Bool
unfolding farm_owner
is_farmer_authorized key_id node = do
  owner ← farm_owner node.farm_id
  farmer ← or_fail bad_request (parse_int key_id)
  pure (farmer == owner)

-- What both handlers of farmers do: the response of isFarmerAuthorized is dropped, since they test
-- an error that is nil there.
unfoldable pub check_farmer : Text → Node → Exec Status (Unit {0})
unfolding is_farmer_authorized
check_farmer key_id node = do
  authorized ← recover false (is_farmer_authorized key_id node)
  guard forbidden authorized

-- The version that SetPublicConfig gives to a configuration.
unfoldable pub next_version : Option PublicIface → ℕ
next_version none = 1
next_version (some cfg) = add cfg.version 1

-- NodeAPI.SetPublicConfig
unfoldable pub set_public_config : Text → PublicIface → Exec Status (Unit {0})
unfolding next_version
set_public_config node_id cfg = do
  node ← get_node internal node_id false
  map_error (answer internal)
      (node_set_public_config node_id (record cfg { version = next_version node.public_config }))

-- NodeAPI.configurePublic
unfoldable pub configure_public : Text → Text → Option PublicIface → Exec Status Success
configure_public node_id key_id body = do
  iface ← or_fail bad_request body
  guard bad_request (validate_public_iface iface)
  node ← get_node not_found node_id false
  check_farmer key_id node
  set_public_config node_id iface
  pure created

-- NodeAPI.configureFreeToUse
unfoldable pub configure_free_to_use : Text → Text → Option Bool → Exec Status Success
configure_free_to_use node_id key_id body = do
  node ← get_node not_found node_id false
  check_farmer key_id node
  choice ← or_fail bad_request body
  map_error (answer internal) (node_update_free_to_use node.node_id choice)
  pure ok
