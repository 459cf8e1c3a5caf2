-- ===== src/Api/Results/Reports.antt =====
-- When a report that a workload is deleted settles its reservation.
use tfexplorer.Base.{
  ℕ, ◌≡◌, refl, ap, Bool, true, false, ◌∙◌, Option, none, some, ◌∷◌, arith, inl, inr, Bool-cases,
  any, ◌&&◌, ◌==◌,
}
use tfexplorer.Base.Text.{Text}
use tfexplorer.Models.Workloads.{deleted, deleted_state, action_eq, Result, Reservation}
use tfexplorer.Reservation.{all_deleted, result_of}
use tfexplorer.Reservation.Workloads.{workloads}
use tfexplorer.World.{
  env_store, or_fail-world, or_fail-done, Env, World, Write, set_next_action, push_result,
  pull_result, queue_pop, Exec, Outcome, when, write, pure, done, failed, or_fail, resume, ◌>>=◌,
  ◌>>◌,
}
use tfexplorer.Api.Handler.{
  Status, Success, ok, internal, not_found, bad_request, reservation_part, load, result_push,
  workload_pop, find_workload,
}
use tfexplorer.Api.Results.{deleted_result, workload_put_deleted}

-- The write that marks the reservation with an ID as deleted.
abbrev pub is_mark : ℕ → Write → Bool
is_mark id (set_next_action i action) = i == id && action_eq action deleted
is_mark id _ = false

-- The reservation with an ID has been marked as deleted.
abbrev pub has_mark : ℕ → World → Bool
has_mark id w = any (is_mark id) w.writes

resume-mark :
    {E A B : Type 0} (id : ℕ) (o : Outcome E A) (f : A → Exec E B) (env : Env) (w : World)
    → has_mark id w ≡ false
    → has_mark id (resume o f env w).1 ≡ true
    → (a : A) × (o ≡ done a) × (has_mark id (f a env w).1 ≡ true)
resume-mark id (done a) f env w quiet h = (a, refl, h)
resume-mark id (failed e) f env w quiet h = cc

-- If a first step makes no mark, what makes one comes after its success.
>>=-mark :
    {E A B : Type 0} (id : ℕ) (m : Exec E A) (f : A → Exec E B) (env : Env) (w : World)
    → has_mark id (m env w).1 ≡ false
    → has_mark id ((m >>= f) env w).1 ≡ true
    → (a : A) × ((m env w).0 ≡ done a) × (has_mark id (f a env (m env w).1).1 ≡ true)
>>=-mark id m f env w quiet h = resume-mark id (m env w).0 f env (m env w).1 quiet h

load-writes : (e : Status) (id : ℕ) (env : Env) (w : World) → (load e id env w).1.writes ≡ w.writes
unfolding load
load-writes e id env w = ground arith

deleted_result-writes :
    (gwid : Text) (o : Option Result) (env : Env) (w : World)
    → (deleted_result gwid o env w).1.writes ≡ w.writes
unfolding deleted_result
deleted_result-writes gwid none env w = refl
deleted_result-writes gwid (some r) env w = refl

deleted_result-state :
    (gwid : Text) (o : Option Result) (env : Env) (w : World) {r : Result}
    → (deleted_result gwid o env w).0 ≡ done r
    → r.state ≡ deleted_state
unfolding deleted_result
deleted_result-state gwid none env w h = ground arith
deleted_result-state gwid (some r) env w h = ground arith

result_push-writes :
    (id : ℕ) (r : Result) (env : Env) (w : World)
    → (result_push id r env w).1.writes
      ≡ push_result id r ∷ pull_result id r.workload_id r.node_id ∷ w.writes
unfolding result_push
result_push-writes id r env w = ground arith

workload_pop-writes :
    (id node : Text) (env : Env) (w : World)
    → (workload_pop id node env w).1.writes ≡ queue_pop id node ∷ w.writes
unfolding workload_pop
workload_pop-writes id node env w = ground arith

-- The last step of workloadPutDeleted.
mark_all :
    (id : ℕ) (r : Reservation) (env : Env) (w : World)
    → has_mark id w ≡ false
    → has_mark id
        ((when (all_deleted r) (write internal (set_next_action r.id deleted))
            >> pure {E = Status} ok)
          env w).1
      ≡ true
    → (r.id ≡ id) × (all_deleted r ≡ true)
mark_all id r env w quiet h = elim (Bool-cases (all_deleted r)) [
  | inl all ↦ (ground arith, all)
  | inr some_left ↦ cc (rw some_left at h, quiet)
]

-- workloadPutDeleted from the write of the result on.
abbrev finish : ℕ → Result → Text → Text → Exec Status Success
finish rid result node gwid = do
  result_push rid result
  workload_pop gwid node
  r ← load internal rid
  when (all_deleted r) (write internal (set_next_action r.id deleted))
  pure ok

finish-mark :
    (id rid : ℕ) (result : Result) (node gwid : Text) (env : Env) (w : World)
    → has_mark id w ≡ false
    → has_mark id (finish rid result node gwid env w).1 ≡ true
    → (w' : World) × (r : Reservation) × (w'.writes
        ≡ queue_pop gwid node
          ∷ push_result rid result
          ∷ pull_result rid result.workload_id result.node_id
          ∷ w.writes)
      × ((load internal rid env w').0 ≡ done r)
      × (r.id ≡ id)
      × (all_deleted r ≡ true)
finish-mark id rid result node gwid env w quiet h =
    let marks = any (is_mark id) in
    let e₁ = result_push-writes rid result env w in
    let (u, pushed, h₁) = >>=-mark id (result_push rid result) _ env w (ap marks e₁ ∙ quiet) h in
    let w₁ = (result_push rid result env w).1 in
    let e₂ = workload_pop-writes gwid node env w₁ in
    let (v, popped, h₂) =
      >>=-mark id (workload_pop gwid node) _ env w₁ (ap marks e₂ ∙ ap marks e₁ ∙ quiet) h₁ in
    let w₂ = (workload_pop gwid node env w₁).1 in
    let e₃ = load-writes internal rid env w₂ in
    let quiet₃ = ap marks e₃ ∙ ap marks e₂ ∙ ap marks e₁ ∙ quiet in
    let (r, again, h₃) = >>=-mark id (load internal rid) _ env w₂ quiet₃ h₂ in
    let settled = mark_all id r env (load internal rid env w₂).1 quiet₃ h₃ in
    (w₂, r, e₂ ∙ ap (λ t. queue_pop gwid node ∷ t) e₁, again, settled.0, settled.1)

-- workloadPutDeleted marks the reservation with an ID as deleted only if that is the ID of the
-- reservation that is found for the workload's ID, and all workloads of it are deleted, when it is
-- read again after a deleted result was stored for the workload and the workload was taken off the
-- queue.
pub workload_put_deleted-mark :
    (id : ℕ) (node gwid : Text) (env : Env) (w : World)
    → has_mark id w ≡ false
    → has_mark id (workload_put_deleted node gwid env w).1 ≡ true
    → (rid : ℕ) × (result : Result) × (w' : World) × (r : Reservation) × (reservation_part gwid
        ≡ some rid)
      × (result.state ≡ deleted_state)
      × (w'.writes
          ≡ queue_pop gwid node
            ∷ push_result rid result
            ∷ pull_result rid result.workload_id result.node_id
            ∷ w.writes)
      × ((load internal rid env w').0 ≡ done r)
      × (r.id ≡ id)
      × (all_deleted r ≡ true)
unfolding workload_put_deleted
workload_put_deleted-mark id node gwid env w quiet h =
    let marks = any (is_mark id) in
    let e₁ = or_fail-world bad_request (reservation_part gwid) env w in
    let w₁ = (or_fail {E = Status} bad_request (reservation_part gwid) env w).1 in
    let (rid, part, h₁) =
      >>=-mark id (or_fail bad_request (reservation_part gwid)) _ env w
        (ap (has_mark id) e₁ ∙ quiet) h in
    let q₁ : w₁.writes ≡ w.writes = ap (λ x. x.writes) e₁ in
    let e₂ = load-writes not_found rid env w₁ in
    let (r₀, loaded, h₂) =
      >>=-mark id (load not_found rid) _ env w₁ (ap marks (e₂ ∙ q₁) ∙ quiet) h₁ in
    let w₂ = (load not_found rid env w₁).1 in
    let found = find_workload gwid (workloads r₀ node) in
    let e₃ = ap (λ x. x.writes) (or_fail-world not_found found env w₂) in
    let (wl, there, h₃) =
      >>=-mark id (or_fail not_found found) _ env w₂ (ap marks (e₃ ∙ e₂ ∙ q₁) ∙ quiet) h₂ in
    let w₃ = (or_fail {E = Status} not_found found env w₂).1 in
    let old = result_of r₀ gwid in
    let e₄ = deleted_result-writes gwid old env w₃ in
    let q₄ = e₄ ∙ e₃ ∙ e₂ ∙ q₁ in
    let (result, made, h₄) =
      >>=-mark id (deleted_result gwid old) _ env w₃ (ap marks q₄ ∙ quiet) h₃ in
    let (w', r, written, again, same, all) =
      finish-mark id rid result node gwid env (deleted_result gwid old env w₃).1
        (ap marks q₄ ∙ quiet) h₄ in
    (
      rid,
      result,
      w',
      r,
      or_fail-done bad_request (reservation_part gwid) env w part,
      deleted_result-state gwid old env w₃ made,
      written
          ∙ ap
              (λ t.
                queue_pop gwid node
                ∷ push_result rid result
                ∷ pull_result rid result.workload_id result.node_id
                ∷ t)
              q₄,
      again,
      same,
      all,
    )
