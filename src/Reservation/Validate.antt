-- ===== src/Reservation/Validate.antt =====
-- Reservation.Validate of pkg/workloads/types/reservation.go. Decoding the JSON text and
-- reflect.DeepEqual are parameters.
pub mod Sound
use tfexplorer.Base.{
  ℕ, ◌++◌, ◌≡◌, Bool, true, not, Option, none, some, List, [], ◌∷◌, map, ltb, ◌==◌, if◌then◌else◌,
  length, any,
}
use tfexplorer.Base.Text.{Text, is_empty, byte_length}
use tfexplorer.Models.Workloads.{ReservationData, Reservation}

-- encoding/json and reflect.DeepEqual. Nothing is assumed of either: the model keeps a Go map as a
-- list with an order and takes a nil and an empty slice as one, which DeepEqual does not.
pub record Json : Type 0 where
  pub decode : Text → Option ReservationData
  pub deep_equal : ReservationData → ReservationData → Bool

pub data Invalid : Type 0 where
  no_customer no_signature bad_json json_differs metadata_too_long : Invalid
  conflicting_id : ℕ → Invalid

-- The IDs of `workloaders`, in its order: the networks are not among them.
unfoldable pub workload_ids : ReservationData → List ℕ
workload_ids d =
    map (λ w. w.workload_id) d.containers
    ++ map (λ w. w.workload_id) d.volumes
    ++ map (λ w. w.workload_id) d.zdbs
    ++ map (λ w. w.workload_id) d.kubernetes
    ++ map (λ w. w.workload_id) d.proxies
    ++ map (λ w. w.workload_id) d.reserve_proxy
    ++ map (λ w. w.workload_id) d.subdomains
    ++ map (λ w. w.workload_id) d.domain_delegates
    ++ map (λ w. w.workload_id) d.gateway4_to6s

-- The loop that fills `ids`: the first ID that is there already.
unfoldable pub conflict : List ℕ → List ℕ → Option ℕ
conflict ids [] = none
conflict ids (w ∷ ws) =
    let rest = conflict (w ∷ ids) ws in if any (λ i. i == w) ids then some w else rest

abbrev pub conflict_error : Option ℕ → Option Invalid
conflict_error none = none
conflict_error (some w) = some (conflicting_id w)

-- From the decoded data on.
abbrev pub validate_data : Json → Reservation → Option ReservationData → Option Invalid
validate_data j r none = some bad_json
validate_data j r (some decoded) =
    if not (j.deep_equal r.data_reservation decoded)
    then some json_differs
    else if ltb 1024 (byte_length r.metadata)
    then some metadata_too_long
    else conflict_error (conflict [] (workload_ids r.data_reservation))

-- The error, or `none` for nil.
unfoldable pub validate : Json → Reservation → Option Invalid
unfolding conflict workload_ids byte_length
validate j r =
    if r.customer_tid == 0
    then some no_customer
    else if is_empty r.customer_signature
    then some no_signature
    else validate_data j r (j.decode r.json)
