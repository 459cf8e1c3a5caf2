-- ===== src/Directory/Farms.antt =====
-- pkg/directory/farms_store.go and pkg/directory/farms_handlers.go: the handlers of farms.
pub mod Owner
use tfexplorer.Base.{ℕ, Option, List, [], ◌==◌}
use tfexplorer.Base.Text.{Text}
use tfexplorer.Base.Decimal.{parse_int}
use tfexplorer.Models.Directory.{Farm}
use tfexplorer.Models.Paging.{Pager, page_from_request, query_int}
use tfexplorer.Mw.{Status, bad_request, not_found, forbidden, internal, Success, ok}
use tfexplorer.Program.{pure, ask, or_fail, guard, derive_total, map_error, document, ◌>>=◌, ◌>>◌}
use tfexplorer.Directory.Outside.{Env, Exec, FarmKey}
use tfexplorer.Directory.Filters.{with_farm, FarmQuery, with_farm_query}
use tfexplorer.Directory.Farm.{validate_farm, farm_create, farm_update}
use tfexplorer.Directory.Nodes.{answer}

-- FarmAPI.GetByID, whose error the handlers answer with NotFound.
unfoldable pub get_farm_by_id : ℕ → Exec Status Farm
get_farm_by_id id = ask not_found (λ env w. document (env.find_farm w (with_farm [] id)))

-- FarmAPI.registerFarm
unfoldable pub register_farm : Option Farm → Exec Status ℕ
register_farm body = do
  info ← or_fail bad_request body
  valid ← derive_total (λ env. validate_farm env info)
  guard bad_request valid
  map_error (answer internal) (farm_create info)

-- FarmAPI.updateFarm. `key_id` names the key that signed the request.
unfoldable pub update_farm : Text → Text → Option Farm → Exec Status Success
unfolding get_farm_by_id
update_farm farm_id key_id body = do
  id ← or_fail bad_request (parse_int farm_id)
  farm ← get_farm_by_id id
  farmer ← or_fail bad_request (parse_int key_id)
  guard forbidden (farm.threebot_id == farmer)
  info ← or_fail bad_request body
  map_error (answer internal) (farm_update id info)
  pure ok

-- FarmQuery.Parse on the parameters "owner" and "name".
unfoldable pub parse_farm_query : Text → Text → Exec Status FarmQuery
parse_farm_query owner name = do
  owner_id ← or_fail bad_request (query_int owner)
  pure (record { farm_name = name; owner_id = owner_id })

-- FarmAPI.List: a page of the farms, and the count of FarmFilter.Count, which asks the collection of
-- the nodes.
unfoldable pub farms_page : List FarmKey → Pager → Exec Status (List Farm × ℕ)
farms_page filter pager = do
  farms ← ask internal (λ env w. env.list_farms w filter pager)
  total ← ask internal (λ env w. env.count_farm_keys_in_nodes w filter)
  pure (farms, total)

-- FarmAPI.listFarm, whose answer has the number of pages in its header.
unfoldable pub list_farms_handler : Text → Text → Text → Text → Exec Status (List Farm × ℕ)
unfolding parse_farm_query farms_page
list_farms_handler owner name page size = do
  q ← parse_farm_query owner name
  farms_page (with_farm_query [] q) (page_from_request page size)

-- FarmAPI.getFarm
unfoldable pub get_farm : Text → Exec Status Farm
unfolding get_farm_by_id
get_farm farm_id = do id ← or_fail bad_request (parse_int farm_id); get_farm_by_id id
