-- ===== src/Api/Handler.antt =====
-- What the handlers of pkg/workloads/reservation.go share: the responses of mw/action.go, loading a
-- reservation through the pipeline, and the calls of the database and the escrow.
use tfexplorer.Base.{ℕ, Option, none, some, List, [], ◌∷◌, if◌then◌else◌}
use tfexplorer.Base.Text.{Text, text_eq}
use tfexplorer.Base.Decimal.{parse_int, before_dash}
use tfexplorer.Models.Workloads.{delete, Result, Reservation}
use tfexplorer.Reservation.Workloads.{Workload}
use tfexplorer.Pipeline.{next}
use tfexplorer.World.{
  env_store, set_next_action, pull_result, push_result, queue_pop, reservation_canceled, Exec, pure,
  ask, ask_total, write, write_anyway, ◌>>=◌, ◌>>◌,
}
pub use tfexplorer.Mw.{
  Status, bad_request, unauthorized, not_found, internal, failed_dependency, panicked, Success, ok,
  created,
}

-- API.parseID
unfoldable pub parse_id : Text → Option ℕ
parse_id id = parse_int id

-- The reservation part of a global workload ID: parseID(strings.Split(gwid, "-")[0]).
unfoldable pub reservation_part : Text → Option ℕ
unfolding parse_id
reservation_part gwid = parse_id (before_dash gwid)

-- a.pipeline(filter.WithID(id).Get(ctx, db)), with the status for an error. NewPipeline never fails.
unfoldable pub load : Status → ℕ → Exec Status Reservation
load status id = do
  r ← ask status (λ env w. env.find_reservation w id)
  now ← ask_total (λ env w. env.now w)
  now' ← ask_total (λ env w. env.now w)
  pure (next now now' r).0

-- API.setReservationDeleted, with its error reported as an internal one by all callers.
unfoldable pub set_reservation_deleted : ℕ → Exec Status (Unit {0})
set_reservation_deleted id = do
  write_anyway (reservation_canceled id)
  write internal (set_next_action id delete)

-- types.ResultPush: whether the old result could be removed does not matter.
unfoldable pub result_push : ℕ → Result → Exec Status (Unit {0})
result_push id result = do
  write_anyway (pull_result id result.workload_id result.node_id)
  write internal (push_result id result)

-- types.WorkloadPop
unfoldable pub workload_pop : Text → Text → Exec Status (Unit {0})
workload_pop id node_id = write internal (queue_pop id node_id)

-- The search of the handlers for the workload with a given ID.
unfoldable pub find_workload : Text → List Workload → Option Workload
find_workload gwid [] = none
find_workload gwid (wl ∷ wls) =
    if text_eq wl.workload_id gwid then some wl else find_workload gwid wls
