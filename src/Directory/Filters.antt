-- ===== src/Directory/Filters.antt =====
-- The filters of pkg/directory/types, which are lists of conditions.
use tfexplorer.Base.{ℕ, Bool, not, List, [], ◌∷◌, ◌++◌, ◌==◌, if◌then◌else◌}
use tfexplorer.Base.Int64.{slt}
use tfexplorer.Base.Text.{Text, is_empty}
use tfexplorer.Directory.Outside.{
  NodeKey, id_is, node_id_is, node_id_in, farm_id_is, cru_at_least, mru_at_least, hru_at_least,
  sru_at_least, country_is, city_is, free_to_use_is, FarmKey, farm_is, name_is, owner_is,
}

-- NodeFilter.WithID and GatewayFilter.WithID
unfoldable pub with_document_id : List NodeKey → ℕ → List NodeKey
with_document_id f id = f ++ id_is id ∷ []

-- NodeFilter.WithNodeID and GatewayFilter.WithGWID
unfoldable pub with_node_id : List NodeKey → Text → List NodeKey
with_node_id f id = f ++ node_id_is id ∷ []

-- NodeFilter.WithNodeIDs and GatewayFilter.WithGWIDs
unfoldable pub with_node_ids : List NodeKey → List Text → List NodeKey
with_node_ids f ids = f ++ node_id_in ids ∷ []

unfoldable pub with_farm_id : List NodeKey → ℕ → List NodeKey
with_farm_id f id = f ++ farm_id_is id ∷ []

-- One round of the loop of WithTotalCap.
unfoldable pub with_cap : (ℕ → NodeKey) → ℕ → List NodeKey → List NodeKey
with_cap key v f = if slt 0 v then f ++ key v ∷ [] else f

-- NodeFilter.WithTotalCap. The source goes over a map, whose order is not defined: this is one of
-- the orders, and all of them select the same nodes.
unfoldable pub with_total_cap : List NodeKey → ℕ → ℕ → ℕ → ℕ → List NodeKey
unfolding with_cap
with_total_cap f cru mru hru sru =
    with_cap sru_at_least sru
      (with_cap hru_at_least hru (with_cap mru_at_least mru (with_cap cru_at_least cru f)))

abbrev with_text : (Text → NodeKey) → Text → List NodeKey → List NodeKey
with_text key t f = if not (is_empty t) then f ++ key t ∷ [] else f

-- NodeFilter.WithLocation and GatewayFilter.WithLocation
unfoldable pub with_location : List NodeKey → Text → Text → List NodeKey
with_location f country city = with_text city_is city (with_text country_is country f)

unfoldable pub with_free_to_use : List NodeKey → Bool → List NodeKey
with_free_to_use f free = f ++ free_to_use_is free ∷ []

-- FarmFilter.WithID
unfoldable pub with_farm : List FarmKey → ℕ → List FarmKey
with_farm f id = f ++ farm_is id ∷ []

unfoldable pub with_farm_name : List FarmKey → Text → List FarmKey
with_farm_name f name = f ++ name_is name ∷ []

unfoldable pub with_owner : List FarmKey → ℕ → List FarmKey
with_owner f tid = f ++ owner_is tid ∷ []

pub record FarmQuery : Type 0 where
  pub farm_name : Text
  pub owner_id : ℕ

unfoldable pub with_farm_query : List FarmKey → FarmQuery → List FarmKey
unfolding with_farm_name with_owner
with_farm_query f q =
    let named = if not (is_empty q.farm_name) then with_farm_name f q.farm_name else f in
    if not (q.owner_id == 0) then with_owner named q.owner_id else named
