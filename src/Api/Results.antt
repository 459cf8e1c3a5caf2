-- ===== src/Api/Results.antt =====
-- The handlers workloadGet, workloadPutResult and workloadPutDeleted of pkg/workloads/reservation.go.
pub mod Reports
use tfexplorer.Base.{ℕ, Option, none, some, [], if◌then◌else◌}
use tfexplorer.Base.Text.{Text}
use tfexplorer.Models.Workloads.{
  zdb, error_state, ok_state, deleted_state, deleted, ResultState, Result, state_eq,
}
use tfexplorer.Reservation.{result_in, result_of, all_deleted, is_successfully_deployed}
use tfexplorer.Reservation.Workloads.{Workload, workloads}
use tfexplorer.World.{
  env_store, set_next_action, reservation_deployed, Exec, pure, ask_total, write, write_anyway,
  or_fail, when, ◌>>=◌, ◌>>◌,
}
use tfexplorer.Api.Handler.{
  Status, bad_request, not_found, internal, Success, ok, created, reservation_part, load,
  set_reservation_deleted, result_push, workload_pop, find_workload,
}

-- API.workloadGet: the workload, and its result if there is one.
unfoldable pub workload_get : Text → Exec Status (Workload × Option Result)
workload_get gwid = do
  rid ← or_fail bad_request (reservation_part gwid)
  r ← load not_found rid
  workload ← or_fail not_found (find_workload gwid (workloads r []))
  pure (workload, result_in workload.workload_id r.results)

-- What API.workloadPutResult does after the result is stored.
unfoldable pub react : ℕ → ResultState → Exec Status (Unit {0})
react rid state =
    if state_eq state error_state
    then set_reservation_deleted rid
    else if state_eq state ok_state
    then (do
      r ← load not_found rid
      when (is_successfully_deployed r) (write_anyway (reservation_deployed rid)))
    else pure tt

-- API.workloadPutResult. Result.Verify accepts every result.
unfoldable pub workload_put_result : Text → Text → Option Result → Exec Status Success
workload_put_result node_id gwid body = do
  rid ← or_fail bad_request (reservation_part gwid)
  result ← or_fail bad_request body
  r ← load not_found rid
  workload ← or_fail not_found (find_workload gwid (workloads r node_id))
  now ← ask_total (λ env w. env.now w)
  result_push rid (record result { node_id = node_id; workload_id = gwid; epoch = now })
  workload_pop gwid node_id
  react rid result.state
  pure created

-- The result that API.workloadPutDeleted stores for a result that was there: the first one for the
-- workload, of any node. Without one it is new, and its other fields have their zero values.
unfoldable pub deleted_result : Text → Option Result → Exec Status Result
deleted_result gwid (some result) = pure (record result { state = deleted_state })
deleted_result gwid none = do
  now ← ask_total (λ env w. env.now w)
  pure (record {
    category = zdb;
    workload_id = gwid;
    data_json = [];
    signature = [];
    state = deleted_state;
    message = [];
    epoch = now;
    node_id = [];
  })

-- API.workloadPutDeleted
unfoldable pub workload_put_deleted : Text → Text → Exec Status Success
workload_put_deleted node_id gwid = do
  rid ← or_fail bad_request (reservation_part gwid)
  r ← load not_found rid
  workload ← or_fail not_found (find_workload gwid (workloads r node_id))
  result ← deleted_result gwid (result_of r gwid)
  result_push rid result
  workload_pop gwid node_id
  r' ← load internal rid
  when (all_deleted r') (write internal (set_next_action r'.id deleted))
  pure ok
