-- ===== src/Directory/Gateways.antt =====
-- pkg/directory/gateway_store.go and pkg/directory/gateway_handlers.go: the handlers of gateways.
use tfexplorer.Base.{ℕ, Option, List, []}
use tfexplorer.Base.Int64.{slt}
use tfexplorer.Base.Text.{Text, text_eq}
use tfexplorer.Models.Directory.{ResourceAmount, WorkloadAmount, Gateway}
use tfexplorer.Models.Paging.{Pager, page_from_request}
use tfexplorer.Mw.{Status, bad_request, not_found, forbidden, internal, Success, ok, created}
use tfexplorer.Program.{pure, ask, or_fail, guard, map_error, ◌>>=◌, ◌>>◌}
use tfexplorer.Directory.Outside.{Exec}
use tfexplorer.Directory.Filters.{with_node_id, with_location}
use tfexplorer.Directory.Gateway.{
  gateway_create, gateway_update_reserved_resources, gateway_update_workloads_amount,
  gateway_update_uptime,
}
use tfexplorer.Directory.Nodes.{answer}

-- gatewayQuery, and the query parameters from which its Parse takes it; those of the page.
pub record GatewayQuery : Type 0 where
  pub country : Text
  pub city : Text

-- GatewayAPI.List: a page of the gateways, and how many there are on all pages.
unfoldable pub gateways_page : GatewayQuery → Pager → Exec Status (List Gateway × ℕ)
gateways_page q pager = do
  gateways ← ask internal (λ env w. env.list_gateways w (with_location [] q.country q.city) pager)
  total ← ask internal (λ env w. env.count_gateways w (with_location [] q.country q.city))
  pure (gateways, total)

-- GatewayAPI.listGateways, whose answer has the number of pages in its header.
unfoldable pub list_gateways_handler : GatewayQuery → Text → Text → Exec Status (List Gateway × ℕ)
list_gateways_handler q page size = gateways_page q (page_from_request page size)

-- GatewayAPI.gatewayDetail
unfoldable pub gateway_detail : Text → Exec Status Gateway
gateway_detail node_id = ask not_found (λ env w. env.find_gateway w (with_node_id [] node_id))

-- GatewayAPI.Requires, with Exists, around a handler for a gateway.
unfoldable pub requires_gateway : {A : Type 0} → Text → Exec Status A → Exec Status A
requires_gateway node_id handler = do
  count ← ask internal (λ env w. env.count_gateways w (with_node_id [] node_id))
  guard not_found (slt 0 count)
  handler

-- GatewayAPI.registerGateway
unfoldable pub register_gateway : Option Gateway → Exec Status Success
register_gateway body = do
  g ← or_fail bad_request body
  id ← map_error (answer internal) (gateway_create g)
  pure created

-- GatewayAPI.updateUptimeHandler
unfoldable pub update_gateway_uptime : Text → Text → Option ℕ → Exec Status Success
update_gateway_uptime node_id key_id body = do
  guard forbidden (text_eq node_id key_id)
  seconds ← or_fail bad_request body
  map_error (answer not_found) (gateway_update_uptime node_id seconds)
  pure ok

-- GatewayAPI.updateReservedResources
unfoldable pub update_gateway_resources :
    Text → Text → Option (ResourceAmount × WorkloadAmount) → Exec Status Success
update_gateway_resources node_id key_id body = do
  guard forbidden (text_eq node_id key_id)
  input ← or_fail bad_request body
  map_error (answer not_found) (gateway_update_reserved_resources node_id input.0)
  map_error (answer not_found) (gateway_update_workloads_amount node_id input.1)
  pure ok
