-- ===== src/Api/Listing.antt =====
-- The handlers get, list and workloads of pkg/workloads/reservation.go.
pub mod Unpaid
use tfexplorer.Base.{
  ℕ, not, Option, none, some, List, [], ◌∷◌, ◌++◌, ltb, leb, if◌then◌else◌, length,
}
use tfexplorer.Base.Text.{Text}
use tfexplorer.Models.Workloads.{deploy, delete, Reservation, action_eq}
use tfexplorer.Reservation.{is_any}
use tfexplorer.Reservation.Workloads.{Workload, workloads}
use tfexplorer.Models.Paging.{page_from_request}
use tfexplorer.Reservation.Filter.{apply_query_filter}
use tfexplorer.Pipeline.{next}
use tfexplorer.World.{Exec, pure, fail, ask, ask_total, or_fail, when, ◌>>=◌, ◌>>◌}
use tfexplorer.Api.Handler.{
  Status, bad_request, not_found, internal, parse_id, load, set_reservation_deleted,
}

-- API.get
unfoldable pub get : Text → Exec Status Reservation
get res_id = do id ← or_fail bad_request (parse_id res_id); load not_found id

-- The loop of API.list: what could not be decoded is left out.
unfoldable pub process_all : List (Option Reservation) → Exec Status (List Reservation)
process_all [] = pure []
process_all (none ∷ rs) = process_all rs
process_all (some r ∷ rs) = do
  now ← ask_total (λ env w. env.now w)
  now' ← ask_total (λ env w. env.now w)
  rest ← process_all rs
  pure ((next now now' r).0 ∷ rest)

-- API.list on its query parameters: a page of reservations, and how many there are on all pages.
unfoldable pub list_reservations_handler :
    Text → Text → Text → Text → Exec Status (List Reservation × ℕ)
unfolding process_all
list_reservations_handler customer action page_text size_text = do
  filter ← or_fail bad_request (apply_query_filter customer action [])
  rs ← ask internal (λ env w. env.list_page w filter (page_from_request page_text size_text))
  total ← ask internal (λ env w. env.count_reservations w filter)
  reservations ← process_all rs
  pure (reservations, total)

abbrev pub max_page_size : ℕ
max_page_size = 200

-- What the loop does with one reservation that the pipeline has processed.
unfoldable pub mark_deleted : Reservation → Exec Status (Unit {0})
mark_deleted r = when (action_eq r.next_action delete) (set_reservation_deleted r.id)

-- The loop of API.workloads over the reservations of the cursor; one that cannot be decoded ends it.
unfoldable pub gather :
    Text → List Workload → List (Option Reservation) → Exec Status (List Workload)
gather node_id found [] = pure found
gather node_id found (none ∷ rs) = fail internal
gather node_id found (some r₀ ∷ rs) = do
  now ← ask_total (λ env w. env.now w)
  now' ← ask_total (λ env w. env.now w)
  let r = (next now now' r₀).0
  let more = found ++ workloads r node_id
  let skipped = gather node_id found rs
  let rest = gather node_id more rs
  mark_deleted r
  if not (is_any r (deploy ∷ delete ∷ []))
      then skipped
      else if leb max_page_size (length more)
      then pure more
      else rest

-- API.workloads: the queue of a node and what its reservations from an ID on ask of it, with the
-- header "x-last-id", which the first return leaves out.
unfoldable pub workloads_of : Text → Text → Exec Status (List Workload × Option ℕ)
workloads_of node_id from_text = do
  queue ← ask internal (λ env w. env.queued w node_id)
  if ltb max_page_size (length queue) then pure (queue, none) else do
    from ← or_fail bad_request (parse_id from_text)
    last ← ask internal (λ env w. env.last_id w)
    rs ← ask internal (λ env w. env.list_reservations w from node_id)
    found ← gather node_id queue rs
    pure (found, some last)
