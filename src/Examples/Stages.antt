-- ===== src/Examples/Stages.antt =====
-- Examples of the stages, the workloads, and the validation of a reservation.
use tfexplorer.Base.{
  ◌+◌, ◌≤◌, ◌≡◌, ◌≢◌, ◌↔◌, ◌⊎◌, refl, true, false, ◌||◌, none, some, [], ◌∷◌, any,
}
use tfexplorer.Base.Text.{byte_length, Text, text_eq, is_empty}
use tfexplorer.Models.Workloads.{
  create, sign, pay, deploy, delete, deleted, Reservation, ReservationData,
}
use tfexplorer.Reservation.Workloads.{workloads}
use tfexplorer.Reservation.Validate.{validate, conflict, workload_ids}
use tfexplorer.Reservation.Validate.Sound.{IsDistinct, validate_sound}
use tfexplorer.Reservation.Nodes.{contains, node_ids, gateway_ids}
use tfexplorer.Reservation.Nodes.Laws.{IsUnique, node_ids-workloads}
use tfexplorer.Pipeline.{check_provision_signatures, stage, advance, rounds, next}
use tfexplorer.Pipeline.Laws.{
  is_due, advance_ends, next-delete_iff, next-deploy_iff, next-pay_iff, next_again,
}
use tfexplorer.Examples.Data.{signature, reservation}
use tfexplorer.Examples.Json.{plain, json_of}

abbrev created : Reservation
created = reservation create (signature ∷ [])

abbrev awaiting : Reservation
awaiting = reservation pay []

next-deploy_iff_example :
    ((next 5 6 (reservation deploy [])).0.next_action ≡ deploy)
    ↔ ((deploy ≡ deploy) × (is_due 5 6 (reservation deploy []) ≡ false))
next-deploy_iff_example = next-deploy_iff 5 6 (reservation deploy [])

next-delete_iff_example :
    ((next 3000 3000 awaiting).0.next_action ≡ delete)
    ↔ ((pay ≡ delete) ⊎ (pay ≢ deleted) × (is_due 3000 3000 awaiting ≡ true))
next-delete_iff_example = next-delete_iff 3000 3000 awaiting

next-pay_iff_example : ((next 5 6 created).0.next_action ≡ pay) ↔ (
    (is_due 5 6 created ≡ false)
    × ((create ≡ pay)
        ⊎ ((create ≡ create) ⊎ (create ≡ sign)) × (check_provision_signatures created ≡ true)))
next-pay_iff_example = next-pay_iff 5 6 created

next_again_example : next 5 6 (next 5 6 created).0 ≡ ((next 5 6 created).0, false)
next_again_example = next_again 5 6 created

advance_ends_example :
    (advance (rounds + 2) create true false ≡ advance rounds create true false)
    × (stage (advance rounds create true false).0 true ≡ (advance rounds create true false).0)
advance_ends_example = advance_ends 2 create true false

node_ids-workloads_example :
    IsUnique (node_ids created)
    × IsUnique (gateway_ids created)
    × ((id : Text)
        → any (λ w. text_eq w.node_id id) (workloads created [])
          ≡ (contains id (node_ids created) || contains id (gateway_ids created)))
node_ids-workloads_example = node_ids-workloads created

abbrev plain_reservation : Reservation
plain_reservation = record created { data_reservation = plain 9000 }

validates : validate (json_of (plain 9000)) plain_reservation ≡ none
unfolding validate conflict workload_ids byte_length
validates = refl

validate_sound_example :
    (plain_reservation.customer_tid ≢ 0)
    × (is_empty plain_reservation.customer_signature ≡ false)
    × ((decoded : ReservationData) × ((json_of (plain 9000)).decode plain_reservation.json
          ≡ some decoded)
        × ((json_of (plain 9000)).deep_equal plain_reservation.data_reservation decoded ≡ true))
    × (byte_length plain_reservation.metadata ≤ 1024)
    × IsDistinct (workload_ids plain_reservation.data_reservation)
validate_sound_example = validate_sound (json_of (plain 9000)) plain_reservation validates
