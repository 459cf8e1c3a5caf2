-- ===== src/Examples/Lives.antt =====
-- Examples of the stages as steps, and of a payment that leads to the deploy state.
use tfexplorer.Base.{◌≡◌, refl, true, false, some, [], ◌∷◌}
use tfexplorer.Base.Int64.{add}
use tfexplorer.Base.Time.{sub_time}
use tfexplorer.Models.Workloads.{create, pay, Reservation}
use tfexplorer.Reservation.{expired, is_any}
use tfexplorer.Pipeline.{
  next, advance, check_provision_signatures, check_delete_signatures, quorum_reached,
}
use tfexplorer.Pipeline.Stages.{Reaches, next-Reaches}
use tfexplorer.Escrow.Service.{required_value, move_to_deploy, check_reservation_paid}
use tfexplorer.Escrow.Service.Progress.{has_payment, IsDeployed, check_reservation_paid-IsDeployed}
use tfexplorer.World.{asked, Env}
use tfexplorer.Examples.Data.{signature, reservation, no_writes, payment, env_of}

abbrev created : Reservation
created = reservation create (signature ∷ [])

next-Reaches_example :
    Reaches (check_provision_signatures created) create (next 5 6 created).0.next_action
next-Reaches_example = next-Reaches 5 6 created

abbrev awaiting : Reservation
awaiting = reservation pay []

abbrev env : Env
env = env_of awaiting false

still_pay : (next 5 5 awaiting).0.next_action ≡ pay
unfolding next advance expired sub_time check_delete_signatures quorum_reached
still_pay = refl

paid : has_payment (check_reservation_paid (payment false) env no_writes).1 ≡ true
unfolding check_reservation_paid move_to_deploy is_any required_value add next advance expired
    sub_time check_delete_signatures quorum_reached
paid = refl

check_reservation_paid-IsDeployed_example :
    (r : Reservation) × (env.find_reservation (asked no_writes) 12 ≡ some r)
    × IsDeployed
        (payment false)
        (next 5 5 r).0
        env
        (asked (asked (asked (asked no_writes))))
        (check_reservation_paid (payment false) env no_writes).1
check_reservation_paid-IsDeployed_example =
    check_reservation_paid-IsDeployed (payment false) env no_writes refl paid
