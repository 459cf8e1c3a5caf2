-- ===== src/Escrow/Service/Progress.antt =====
-- When a payment is marked as paid.
use tfexplorer.Base.{
  ◌≡◌, ◌∙◌, ◌≢◌, refl, sym, ap, Bool, true, false, any, some, [], ◌∷◌, inl, inr, Bool-cases,
}
use tfexplorer.Models.Workloads.{pay, deploy, Reservation}
use tfexplorer.Pipeline.{next}
use tfexplorer.Reservation.{is_any}
use tfexplorer.Reservation.Workloads.{workloads}
use tfexplorer.Escrow.Types.{ReservationPaymentInformation}
use tfexplorer.World.{
  Env, World, Write, set_next_action, queue_push, update_payment_info, asked, env_store,
}
use tfexplorer.Escrow.Service.{move_to_deploy, reservation_to_deploy, check_reservation_paid}
use tfexplorer.Escrow.Service.Paid.{deploy_needs_payment}

abbrev pub is_payment : Write → Bool
is_payment (update_payment_info info) = true
is_payment _ = false

-- The information on a payment has been stored anew.
abbrev pub has_payment : World → Bool
has_payment w = any is_payment w.writes

abbrev pub issued : Write → World → World
issued c w = record w { writes = c ∷ w.writes }

-- A reservation has been deployed, and then its payment marked as paid: the deploy state is stored
-- and the workloads are handed to the nodes, both with success, before the payment is stored.
pub record IsDeployed (info : ReservationPaymentInformation) (r : Reservation) (env : Env)
    (w out : World) : Type 0 where
  pub awaited : r.next_action ≡ pay
  pub stored : env.write_ok w (set_next_action r.id deploy) ≡ true
  pub queued :
      env.write_ok (issued (set_next_action r.id deploy) w) (queue_push (workloads r [])) ≡ true
  pub writes_lem :
      out.writes
      ≡ update_payment_info (record info { paid = true })
        ∷ queue_push (workloads r [])
        ∷ set_next_action r.id deploy
        ∷ w.writes

true_ne_false : ◌≢◌ {A = Bool} true false
true_ne_false h = cc

awaits_payment : (r : Reservation) → r.next_action ≡ pay → is_any r (pay ∷ []) ≡ true
unfolding is_any
awaits_payment r h = rw h refl

move_to_deploy-IsDeployed :
    (info : ReservationPaymentInformation) (r : Reservation) (env : Env) (w : World)
    → has_payment w ≡ false
    → r.next_action ≡ pay
    → has_payment (move_to_deploy info r env w).1 ≡ true
    → IsDeployed info r env w (move_to_deploy info r env w).1
unfolding move_to_deploy reservation_to_deploy
move_to_deploy-IsDeployed info r env w quiet is_pay h =
    let awaits = awaits_payment r is_pay in
    let set = set_next_action r.id deploy in
    let push = queue_push (workloads r []) in
    let paid = update_payment_info (record info { paid = true }) in
    elim (Bool-cases (env.write_ok w set)) [
      | inr fails ↦ absurd (cc (rw (awaits, fails) at h, quiet))
      | inl stored ↦ elim (Bool-cases (env.write_ok (issued set w) push)) [
        | inr fails ↦ absurd (cc (rw (awaits, stored, fails) at h, quiet))
        | inl queued ↦ elim (Bool-cases (env.write_ok (issued push (issued set w)) paid)) [
          | inl ok ↦ record {
            awaited = is_pay;
            stored = stored;
            queued = queued;
            writes_lem = rw (awaits, stored, queued, ok) refl;
          }
          | inr fails ↦ record {
            awaited = is_pay;
            stored = stored;
            queued = queued;
            writes_lem = rw (awaits, stored, queued, fails) refl;
          }
        ]
      ]
    ]

-- checkReservationPaid stores a payment only as paid, and only after the reservation, which awaits
-- payment after the pipeline, was set to the deploy state and then its workloads were handed to the
-- nodes, both with success. It writes nothing else.
pub check_reservation_paid-IsDeployed :
    (info : ReservationPaymentInformation) (env : Env) (w : World)
    → has_payment w ≡ false
    → has_payment (check_reservation_paid info env w).1 ≡ true
    → (r : Reservation) × (env.find_reservation (asked w) info.reservation_id ≡ some r)
      × IsDeployed info
          (next (env.now (asked (asked w))) (env.now (asked (asked (asked w)))) r).0
          env
          (asked (asked (asked (asked w))))
          (check_reservation_paid info env w).1
unfolding check_reservation_paid
check_reservation_paid-IsDeployed info env w quiet h =
    let changed = λ (e : (check_reservation_paid info env w).1.writes ≡ w.writes).
      true_ne_false (sym h ∙ ap (any is_payment) e ∙ quiet) in
    let (balance, r, read, enough, there, is_pay) = deploy_needs_payment info env w changed in
    let r' : Reservation =
      (next (env.now (asked (asked w))) (env.now (asked (asked (asked w)))) r).0 in
    let w' = asked (asked (asked (asked w))) in
    let same : (check_reservation_paid info env w).1 ≡ (move_to_deploy info r' env w').1 =
      rw (read, enough, there) refl in
    let moved =
      move_to_deploy-IsDeployed info r' env w' quiet is_pay (ap has_payment (sym same) ∙ h) in
    (r, there, rw (sym same) at moved)
