-- ===== src/Escrow/Service/Paid.antt =====
-- When a reservation is moved to the deploy state.
use tfexplorer.Base.{ℕ, ◌≡◌, ◌≢◌, inl, inr, false, some, arith, Bool-cases, Option-cases}
use tfexplorer.Base.Int64.{slt}
use tfexplorer.Models.Workloads.{pay, Reservation}
use tfexplorer.Pipeline.{next}
use tfexplorer.Reservation.{is_any}
use tfexplorer.Escrow.Types.{ReservationPaymentInformation}
use tfexplorer.World.{Env, World, asked, ◌>>=◌}
use tfexplorer.Escrow.Service.{required_value, move_to_deploy, check_reservation_paid}

move_needs_pay :
    (info : ReservationPaymentInformation) (r : Reservation) (env : Env) (w : World)
    → (move_to_deploy info r env w).1.writes ≢ w.writes
    → r.next_action ≡ pay
unfolding move_to_deploy is_any
move_needs_pay info r env w changed = ground arith

-- checkReservationPaid writes (to schedule the reservation, or to mark it as paid) only if the
-- balance was read and is not below the required value, and the reservation was read and is, after
-- the pipeline, in the pay state.
pub deploy_needs_payment :
    (info : ReservationPaymentInformation) (env : Env) (w : World)
    → (check_reservation_paid info env w).1.writes ≢ w.writes
    → (balance : ℕ) × (r : Reservation) × (env.balance w info.address info.reservation_id info.asset
        ≡ some balance)
      × (slt balance (required_value 0 info.infos) ≡ false)
      × (env.find_reservation (asked w) info.reservation_id ≡ some r)
      × ((next (env.now (asked (asked w))) (env.now (asked (asked (asked w)))) r).0.next_action
          ≡ pay)
unfolding check_reservation_paid
deploy_needs_payment info env w changed =
    elim (Option-cases (env.balance w info.address info.reservation_id info.asset)) [
      | inl unread ↦ absurd (changed (rw (unread, ◌>>=◌)))
      | inr (balance, read) ↦ elim (Bool-cases (slt balance (required_value 0 info.infos))) [
        | inl short ↦ absurd (changed (rw (read, short)))
        | inr enough ↦ elim (Option-cases (env.find_reservation (asked w) info.reservation_id)) [
          | inl missing ↦ absurd (changed (rw (read, enough, missing)))
          | inr (r, there) ↦ (
            balance,
            r,
            read,
            enough,
            there,
            move_needs_pay info _ env _ (rw (read, enough, there) at changed),
          )
        ]
      ]
    ]
