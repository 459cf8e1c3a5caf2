-- ===== src/Examples/Json.antt =====
-- A JSON library: every text decodes to the data given, and two data are equal when both are plain,
-- that is empty but for the expiration, and expire at the same time.
use tfexplorer.Base.{ℕ, Bool, true, false, some, List, [], ◌∷◌, ◌==◌}
use tfexplorer.Models.Workloads.{SigningRequest, ReservationData}
use tfexplorer.Reservation.Validate.{Json}

abbrev is_nil {ℓ} : {A : Type ℓ} → List A → Bool
is_nil [] = true
is_nil (x ∷ xs) = false

abbrev pub no_request : SigningRequest
no_request = record { signers = []; quorum_min = 0 }

abbrev pub plain : ℕ → ReservationData
plain expiration = record {
  description = [];
  currencies = [];
  containers = [];
  volumes = [];
  zdbs = [];
  networks = [];
  kubernetes = [];
  proxies = [];
  reserve_proxy = [];
  subdomains = [];
  domain_delegates = [];
  gateway4_to6s = [];
  signing_request_provision = no_request;
  signing_request_delete = no_request;
  expiration_provisioning = 0;
  expiration_reservation = expiration;
}

abbrev both : Bool → Bool → Bool
both true b = b
both false b = false

abbrev all_true : List Bool → Bool
all_true [] = true
all_true (b ∷ bs) = both b (all_true bs)

abbrev tests : ReservationData → List Bool
tests d =
    is_nil d.description
    ∷ is_nil d.currencies
    ∷ is_nil d.containers
    ∷ is_nil d.volumes
    ∷ is_nil d.zdbs
    ∷ is_nil d.networks
    ∷ is_nil d.kubernetes
    ∷ is_nil d.proxies
    ∷ is_nil d.reserve_proxy
    ∷ is_nil d.subdomains
    ∷ is_nil d.domain_delegates
    ∷ is_nil d.gateway4_to6s
    ∷ is_nil d.signing_request_provision.signers
    ∷ is_nil d.signing_request_delete.signers
    ∷ (d.signing_request_provision.quorum_min == 0)
    ∷ (d.signing_request_delete.quorum_min == 0)
    ∷ (d.expiration_provisioning == 0)
    ∷ []

abbrev is_plain : ReservationData → Bool
is_plain d = all_true (tests d)

abbrev pub same : ReservationData → ReservationData → Bool
same a b =
    both (is_plain a) (both (is_plain b) (a.expiration_reservation == b.expiration_reservation))

abbrev pub json_of : ReservationData → Json
json_of d = record { decode = λ text. some d; deep_equal = same }
