-- ===== src/Provision/Reservation.antt =====
-- provision/builders/reservationBuilder.go.
use tfexplorer.Base.{ℕ, List, [], ◌∷◌, ◌++◌}
use tfexplorer.Models.Workloads.{
  Reservation, ReservationData, SigningRequest, Volume, Zdb, Container, K8s,
}
use tfexplorer.Provision.Network.{NetworkBuilder}

abbrev with_data : Reservation → ReservationData → Reservation
with_data r d = record r { data_reservation = d }

-- ReservationBuilder.Build at a time.
unfoldable pub build_reservation : ℕ → Reservation → Reservation
build_reservation now r = record r { epoch = now }

unfoldable pub with_duration : Reservation → ℕ → Reservation
with_duration r duration =
    with_data r (record r.data_reservation { expiration_reservation = duration })

unfoldable pub with_expiration_provisioning : Reservation → ℕ → Reservation
with_expiration_provisioning r expiration =
    with_data r (record r.data_reservation { expiration_provisioning = expiration })

abbrev with_signing_request_delete : Reservation → SigningRequest → Reservation
with_signing_request_delete r request =
    with_data r (record r.data_reservation { signing_request_delete = request })

unfoldable pub with_signing_request_delete_quorum_min : Reservation → ℕ → Reservation
with_signing_request_delete_quorum_min r quorum_min =
    with_signing_request_delete r
      (record r.data_reservation.signing_request_delete { quorum_min = quorum_min })

unfoldable pub with_signing_request_delete_signers : Reservation → List ℕ → Reservation
with_signing_request_delete_signers r signers =
    with_signing_request_delete r
      (record r.data_reservation.signing_request_delete { signers = signers })

unfoldable pub add_volume : Reservation → Volume → Reservation
add_volume r x =
    with_data r (record r.data_reservation { volumes = r.data_reservation.volumes ++ x ∷ [] })

unfoldable pub add_network : Reservation → NetworkBuilder → Reservation
add_network r x =
    with_data r
      (record r.data_reservation { networks = r.data_reservation.networks ++ x.network ∷ [] })

unfoldable pub add_zdb : Reservation → Zdb → Reservation
add_zdb r x = with_data r (record r.data_reservation { zdbs = r.data_reservation.zdbs ++ x ∷ [] })

unfoldable pub add_container : Reservation → Container → Reservation
add_container r x =
    with_data r (record r.data_reservation { containers = r.data_reservation.containers ++ x ∷ [] })

unfoldable pub add_k8s : Reservation → K8s → Reservation
add_k8s r x =
    with_data r (record r.data_reservation { kubernetes = r.data_reservation.kubernetes ++ x ∷ [] })
