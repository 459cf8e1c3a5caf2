-- ===== src/Reservation.antt =====
-- pkg/workloads/types/reservation.go: what the explorer asks of one reservation.
pub mod Filter
pub mod Workloads
pub mod Validate
pub mod Nodes
use tfexplorer.Base.{
  ℕ, ◌-◌, Bool, true, false, ◌&&◌, not, Option, none, some, List, [], ◌∷◌, leb, if◌then◌else◌,
  length, all, find,
}
use tfexplorer.Base.Int64.{sle}
use tfexplorer.Base.Time.{sub_time}
use tfexplorer.Base.Text.{Text, text_eq}
use tfexplorer.Models.Workloads.{
  NextAction, ResultState, ok_state, deleted_state, Result, Reservation, action_eq, state_eq,
}
use Workloads.{Workload, workloads}

-- Reservation.Expired: time.Until(expiration) <= 0, where `now` is the time of the call.
unfoldable pub expired : ℕ → Reservation → Bool
expired now r = sle (sub_time r.data_reservation.expiration_reservation now) 0

-- Reservation.IsAny
unfoldable pub is_any : Reservation → List NextAction → Bool
is_any r [] = false
is_any r (s ∷ status) = if action_eq r.next_action s then true else is_any r status

-- The loop of Reservation.ResultOf.
unfoldable pub result_in : Text → List Result → Option Result
result_in id [] = none
result_in id (result ∷ results) =
    if text_eq result.workload_id id then some result else result_in id results

unfoldable pub result_of : Reservation → Text → Option Result
unfolding result_in
result_of r id = result_in id r.results

abbrev is_deleted_result : Option Result → Bool
is_deleted_result none = false
is_deleted_result (some result) = state_eq result.state deleted_state

-- The loop of Reservation.AllDeleted.
unfoldable pub all_deleted_in : Reservation → List Workload → Bool
unfolding result_of
all_deleted_in r [] = true
all_deleted_in r (wl ∷ wls) =
    if not (is_deleted_result (result_of r wl.workload_id)) then false else all_deleted_in r wls

unfoldable pub all_deleted : Reservation → Bool
unfolding all_deleted_in
all_deleted r = all_deleted_in r (workloads r [])

-- The inner loop of Reservation.IsSuccessfullyDeployed.
unfoldable pub all_ok : List Result → Bool
all_ok [] = true
all_ok (result ∷ results) = if not (state_eq result.state ok_state) then false else all_ok results

unfoldable pub is_successfully_deployed : Reservation → Bool
unfolding all_ok
is_successfully_deployed r =
    if leb (length (workloads r [])) (length r.results) then all_ok r.results else false
