-- ===== src/Reservation/Workloads/Filter.antt =====
-- Which workloads `Workloads` lists.
use tfexplorer.Base.{
  suc, ◌<◌, ◌≡◌, refl, ap, inl, inr, Bool, false, some, List, [], ◌∷◌, arith, length, keep, All,
  Bool-cases,
}
use tfexplorer.Base.Int64.{sign_bit}
use tfexplorer.Base.Text.{Text, text_eq, is_empty}
use tfexplorer.Base.Decimal.{format_int, parse_int, before_dash}
use tfexplorer.Base.Decimal.RoundTrip.{parse_int-format_int}
use tfexplorer.Models.Workloads.{Reservation}
use tfexplorer.Reservation.Workloads.{Workload, Listed, is_elsewhere, collect, items, workloads}

abbrev is_on : Text → Workload → Bool
is_on node w = text_eq w.node_id node

collect-keep :
    (r : Reservation) (node : Text) (xs : List Listed)
    → is_empty node ≡ false
    → collect r node xs ≡ keep (is_on node) (collect r [] xs)
unfolding collect
collect-keep r node [] h = refl
collect-keep r node (x ∷ xs) h = ground (arith, collect-keep r node xs h)

-- For a node that is named, `Workloads` lists the workloads of the whole reservation that are on
-- it, in their order.
pub workloads-keep :
    (r : Reservation) (node : Text)
    → is_empty node ≡ false
    → workloads r node ≡ keep (λ w. text_eq w.node_id node) (workloads r [])
unfolding workloads
workloads-keep r node h = collect-keep r node (items r.data_reservation) h

pub length-collect : (r : Reservation) (xs : List Listed) → length (collect r [] xs) ≡ length xs
unfolding collect
length-collect r [] = refl
length-collect r (x ∷ xs) = ap suc (length-collect r xs)

pub length-workloads :
    (r : Reservation) → length (workloads r []) ≡ length (items r.data_reservation)
unfolding workloads
length-workloads r = length-collect r (items r.data_reservation)

-- The ID in a workload's key is the reservation's.
collect-parse_int :
    (r : Reservation) (node : Text) (xs : List Listed)
    → r.id < sign_bit
    → All (λ w. parse_int (before_dash w.workload_id) ≡ some r.id) (collect r node xs)
unfolding collect
collect-parse_int r node [] h = tt
collect-parse_int r node (x ∷ xs) h = elim (Bool-cases (is_elsewhere node x.node_id)) [
  | inl away ↦ rw away (collect-parse_int r node xs h)
  | inr here ↦
      rw here
        (parse_int-format_int r.id (format_int x.workload_id) h, collect-parse_int r node xs h)
]

-- Every workload of a reservation with a non-negative ID carries a key from which the handlers
-- (the number before the dash) find the reservation again, whatever node was asked for.
pub workloads-parse_int :
    (r : Reservation) (node : Text)
    → r.id < sign_bit
    → All (λ w. parse_int (before_dash w.workload_id) ≡ some r.id) (workloads r node)
unfolding workloads
workloads-parse_int r node h = collect-parse_int r node (items r.data_reservation) h
