-- ===== src/Reservation/Filter.antt =====
-- The ReservationFilter of pkg/workloads/types/reservation.go, a list of conditions.
use tfexplorer.Base.{ℕ, ◌%◌, not, Option, none, some, List, [], ◌∷◌, ◌++◌, ◌==◌, if◌then◌else◌}
use tfexplorer.Base.Text.{Text, codes, is_empty}
use tfexplorer.Base.Decimal.{parse_int}
use tfexplorer.Models.Workloads.{
  NextAction, create, sign, pay, deploy, delete, invalid, deleted, unknown_action,
}
use tfexplorer.Models.Paging.{query_int}

-- A condition: an ID, a least ID, an action, a customer, or a value at one of several paths.
pub data ReservationKey : Type 0 where
  id_is : ℕ → ReservationKey
  id_at_least : ℕ → ReservationKey
  next_action_is : NextAction → ReservationKey
  customer_is : ℕ → ReservationKey
  some_path_is : List Text → Text → ReservationKey

unfoldable pub with_reservation_id : List ReservationKey → ℕ → List ReservationKey
with_reservation_id f id = f ++ id_is id ∷ []

-- WithIDGE
unfoldable pub with_id_ge : List ReservationKey → ℕ → List ReservationKey
with_id_ge f id = f ++ id_at_least id ∷ []

unfoldable pub with_next_action : List ReservationKey → NextAction → List ReservationKey
with_next_action f action = f ++ next_action_is action ∷ []

unfoldable pub with_customer_id : List ReservationKey → ℕ → List ReservationKey
with_customer_id f id = f ++ customer_is id ∷ []

-- The paths at which a reservation has the IDs of nodes.
unfoldable pub node_paths : List Text
node_paths =
    codes "data_reservation.containers.node_id"
    ∷ codes "data_reservation.volumes.node_id"
    ∷ codes "data_reservation.zdbs.node_id"
    ∷ codes "data_reservation.kubernetes.node_id"
    ∷ codes "data_reservation.proxies.node_id"
    ∷ codes "data_reservation.reserve_proxies.node_id"
    ∷ codes "data_reservation.subdomains.node_id"
    ∷ codes "data_reservation.domain_delegates.node_id"
    ∷ codes "data_reservation.gateway4to6.node_id"
    ∷ codes "data_reservation.networks.network_resources.node_id"
    ∷ []

-- WithNodeID
unfoldable pub with_reservation_node : List ReservationKey → Text → List ReservationKey
unfolding node_paths
with_reservation_node f id = f ++ some_path_is node_paths id ∷ []

-- generated.NextActionEnum of a number, which is cut to a uint8.
abbrev named_action : ℕ → NextAction
named_action n =
    if n == 0
    then create
    else if n == 1
    then sign
    else if n == 2
    then pay
    else if n == 3
    then deploy
    else if n == 4
    then delete
    else if n == 5
    then invalid
    else if n == 6
    then deleted
    else unknown_action n

unfoldable pub action_of : ℕ → NextAction
action_of n = named_action (n % 256)

abbrev and_customer : ℕ → List ReservationKey → List ReservationKey
and_customer id f = if not (id == 0) then with_customer_id f id else f

abbrev and_action : Option ℕ → List ReservationKey → Option (List ReservationKey)
and_action none f = none
and_action (some n) f = some (with_next_action f (action_of n))

abbrev query_filter : Option ℕ → Text → List ReservationKey → Option (List ReservationKey)
query_filter none action f = none
query_filter (some id) action f =
    if is_empty action
    then some (and_customer id f)
    else and_action (parse_int action) (and_customer id f)

-- ApplyQueryFilter on the parameters "customer_tid" and "next_action"; `none` is its error.
unfoldable pub apply_query_filter : Text → Text → List ReservationKey → Option (List ReservationKey)
unfolding action_of
apply_query_filter customer action f = query_filter (query_int customer) action f
