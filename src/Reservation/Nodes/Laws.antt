-- ===== src/Reservation/Nodes/Laws.antt =====
-- NodeIDs and GatewayIDs list each ID once, and together the IDs of all the workloads.
use mathlib.Core.Path.{ap₂}
use mathlib.Core.List.{map-append, map-map}
use tfexplorer.Base.{
  ◌≡◌, refl, sym, ap, ◌∙◌, inl, inr, Bool, false, ◌||◌, List, [], ◌∷◌, ◌++◌, map, arith, any,
  Bool-cases,
}
use tfexplorer.Base.Text.{Text, text_eq, text_eq→≡}
use tfexplorer.Models.Workloads.{Reservation, Network}
use tfexplorer.Reservation.Nodes.{
  contains, insert_id, insert_all, used_nodes, used_gateways, network_nodes, node_ids, gateway_ids,
}
use tfexplorer.Reservation.Workloads.{Listed, collect, items, network_items, workloads}

abbrev pub IsUnique : List Text → Type 0
IsUnique [] = Unit
IsUnique (id ∷ ids) = (contains id ids ≡ false) × IsUnique ids

insert_all-IsUnique : (ids more : List Text) → IsUnique ids → IsUnique (insert_all ids more)
unfolding insert_all
insert_all-IsUnique ids [] h = h
insert_all-IsUnique ids (id ∷ more) h = elim (Bool-cases (contains id ids)) [
  | inl old ↦ rw old (insert_all-IsUnique ids more h)
  | inr new ↦ rw new (insert_all-IsUnique (id ∷ ids) more (new, h))
]

contains-insert_id :
    (id : Text) (ids : List Text) (new : Text)
    → contains id (insert_id ids new) ≡ (contains id ids || text_eq new id)
unfolding insert_id
contains-insert_id id ids new = elim (Bool-cases (text_eq new id)) [
  | inl same ↦ ground (arith, ap (λ t. contains t ids) (text_eq→≡ new id same))
  | inr other ↦ ground (arith)
]

contains-insert_all :
    (id : Text) (ids more : List Text)
    → contains id (insert_all ids more) ≡ (contains id ids || contains id more)
unfolding insert_all
contains-insert_all id ids [] = ground arith
contains-insert_all id ids (new ∷ more) =
    ground (arith, contains-insert_all id (insert_id ids new) more, contains-insert_id id ids new)

any-append {ℓ} :
    {A : Type ℓ} (p : A → Bool) (xs ys : List A) → any p (xs ++ ys) ≡ (any p xs || any p ys)
any-append p [] ys = refl
any-append p (x ∷ xs) ys = ground (arith, any-append p xs ys)

any-collect :
    (r : Reservation) (id : Text) (xs : List Listed)
    → any (λ w. text_eq w.node_id id) (collect r [] xs) ≡ contains id (map (λ x. x.node_id) xs)
unfolding collect
any-collect r id [] = refl
any-collect r id (x ∷ xs) = ground (arith, any-collect r id xs)

map-network_items :
    (ws : List Network) → map (λ (x : Listed). x.node_id) (network_items ws) ≡ network_nodes ws
unfolding network_items network_nodes
map-network_items [] = refl
map-network_items (w ∷ ws) = simp (map-append, map-map, map-network_items ws)

abbrev on : Text → List Listed → Bool
on id xs = contains id (map (λ x. x.node_id) xs)

on-items :
    (id : Text) (r : Reservation)
    → on id (items r.data_reservation)
      ≡ (contains id (used_nodes r) || contains id (used_gateways r))
unfolding items used_nodes used_gateways
on-items id r = simp (any-append, map-append, map-map, map-network_items) (ground arith)

-- NodeIDs and GatewayIDs list no ID twice, and an ID is in one of them exactly when a workload of
-- the reservation is on that node.
pub node_ids-workloads :
    (r : Reservation)
    → IsUnique (node_ids r)
      × IsUnique (gateway_ids r)
      × ((id : Text)
          → any (λ w. text_eq w.node_id id) (workloads r [])
            ≡ (contains id (node_ids r) || contains id (gateway_ids r)))
unfolding node_ids gateway_ids workloads
node_ids-workloads r = (
  insert_all-IsUnique [] (used_nodes r) tt,
  insert_all-IsUnique [] (used_gateways r) tt,
  λ id.
      any-collect r id (items r.data_reservation)
      ∙ on-items id r
      ∙ sym (
          ap₂ ◌||◌ (contains-insert_all id [] (used_nodes r))
            (contains-insert_all id [] (used_gateways r))),
)
