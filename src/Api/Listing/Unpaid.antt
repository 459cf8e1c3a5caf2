-- ===== src/Api/Listing/Unpaid.antt =====
-- What the listing of workloads leaves out.
use tfexplorer.Base.{◌≡◌, ◌≢◌, refl, inl, inr, false, List, [], ◌∷◌, arith, All, map, some}
use tfexplorer.Base.Text.{Text}
use tfexplorer.Models.Workloads.{NextAction, deploy, delete, Reservation, action_eq}
use tfexplorer.Reservation.{is_any}
use tfexplorer.Reservation.Workloads.{Workload}
use tfexplorer.Pipeline.{next}
use tfexplorer.Pipeline.Laws.{is_due, next-deploy_iff, next-delete_iff}
use tfexplorer.World.{Env, World, asked, done}
use tfexplorer.Api.Listing.{mark_deleted, gather}

-- A reservation that is neither to be deployed nor to be deleted, and does not become due while the
-- clock of the environment is read.
abbrev pub IsIdle : Env → Reservation → Type 0
IsIdle env r =
    (r.next_action ≢ deploy)
    × (r.next_action ≢ delete)
    × ((a b : World) → is_due (env.now a) (env.now b) r ≡ false)

not_listed :
    (r : Reservation)
    → r.next_action ≢ deploy
    → r.next_action ≢ delete
    → is_any r (deploy ∷ delete ∷ []) ≡ false
unfolding is_any
not_listed r h k = ground arith

not_marked : (a : NextAction) → a ≢ delete → action_eq a delete ≡ false
not_marked a h = ground arith

module _ (env : Env) (r : Reservation) (idle : IsIdle env r) (a b : World) where
  stays_undeployed : (next (env.now a) (env.now b) r).0.next_action ≢ deploy
  stays_undeployed h = idle.0 ((next-deploy_iff (env.now a) (env.now b) r).0 h).0

  stays_undeleted : (next (env.now a) (env.now b) r).0.next_action ≢ delete
  stays_undeleted h = elim ((next-delete_iff (env.now a) (env.now b) r).0 h) [
    | inl marked ↦ idle.1 marked
    | inr due ↦ ground (arith, idle.2 a b)
  ]

-- If all reservations of the cursor are decoded, and none is to be deployed or deleted, nor becomes due while the clock is read, the
-- listing adds no workload to the queue and writes nothing.
pub gather_idle :
    (node : Text) (found : List Workload) (rs : List Reservation) (env : Env) (w : World)
    → All (IsIdle env) rs
    → ((gather node found (map some rs) env w).0 ≡ done found)
      × ((gather node found (map some rs) env w).1.writes ≡ w.writes)
unfolding gather mark_deleted
gather_idle node found [] env w h = (refl, refl)
gather_idle node found (r ∷ rs) env w h =
    let undeployed = stays_undeployed env r h.0 w (asked w) in
    let undeleted = stays_undeleted env r h.0 w (asked w) in
    let r' = (next (env.now w) (env.now (asked w)) r).0 in
    rw (not_listed r' undeployed undeleted, not_marked r'.next_action undeleted)
      (gather_idle node found rs env (asked (asked w)) h.1)
