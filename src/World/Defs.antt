-- ===== src/World/Defs.antt =====
-- What the explorer asks of its outside, and what it writes there.
use tfexplorer.Base.{ℕ, Bool, Option, List}
use tfexplorer.Base.Text.{Text}
use tfexplorer.Program.{Log}
pub use tfexplorer.Models.Directory.{WalletAddress, Farm}
pub use tfexplorer.Models.Phonebook.{User}
use tfexplorer.Models.Workloads.{NextAction, SigningSignature, Result, Reservation}
use tfexplorer.Models.Paging.{Pager}
use tfexplorer.Reservation.Filter.{ReservationKey}
use tfexplorer.Reservation.Workloads.{Workload}
use tfexplorer.Stellar.Asset.{Asset}
use tfexplorer.Escrow.Types.{
  ReservationPaymentInformation, CustomerEscrowInformation, CustomerAddress, PayoutInfo,
}

-- types.SignatureMode
pub data SignatureMode : Type 0 where
  signature_provision signature_delete : SignatureMode

-- What is sent to a collection, to the wallet, or to the escrow's channels.
pub data Write : Type 0 where
  insert_reservation : Reservation → Write
  set_next_action : ℕ → NextAction → Write
  push_signature : ℕ → SignatureMode → SigningSignature → Write
  pull_result : ℕ → Text → Text → Write
  push_result : ℕ → Result → Write
  queue_push : List Workload → Write
  queue_pop : Text → Text → Write
  register_reservation : Reservation → List Text → Write
  reservation_deployed : ℕ → Write
  reservation_canceled : ℕ → Write
  create_payment_info : ReservationPaymentInformation → Write
  update_payment_info : ReservationPaymentInformation → Write
  create_address : CustomerAddress → Write
  create_account : Write
  payout_farmers : Text → List PayoutInfo → ℕ → Asset → Write
  refund : Text → ℕ → Asset → Write

abbrev pub World : Type 0
World = Log Write

-- `none` is an error of the call, and in a list of documents one that could not be decoded. The
-- wallet is behind address_valid, balance, new_account, payout_farmers and refund.
pub record Env : Type 0 where
  pub network : Text
  pub foundation_address : Text
  pub now : World → ℕ
  pub write_ok : World → Write → Bool
  pub find_reservation : World → ℕ → Option Reservation
  pub list_reservations : World → ℕ → Text → Option (List (Option Reservation))
  pub list_page : World → List ReservationKey → Pager → Option (List (Option Reservation))
  pub count_reservations : World → List ReservationKey → Option ℕ
  pub queued : World → Text → Option (List Workload)
  pub next_id : World → Option ℕ
  pub last_id : World → Option ℕ
  pub find_user : World → ℕ → Option User
  pub count_free_nodes : World → List Text → Option ℕ
  pub count_free_gateways : World → List Text → Option ℕ
  pub farms_for_nodes : World → List Text → Option (List Farm)
  pub address_valid : World → Text → Asset → Text → Bool
  pub verify : Text → Text → Text → Bool
  pub registered : World → Option CustomerEscrowInformation
  pub find_payment_info : World → ℕ → Option ReservationPaymentInformation
  pub active_payment_infos : World → ℕ → Option (List ReservationPaymentInformation)
  pub expired_payment_infos : World → ℕ → Option (List ReservationPaymentInformation)
  pub balance : World → Text → ℕ → Asset → Option ℕ
  pub find_node_farm : World → Text → Option ℕ
  pub find_farm : World → ℕ → Option Farm
  pub find_address : World → ℕ → Option (Option CustomerAddress)
  pub find_address_by_address : World → Text → Option CustomerAddress
  pub new_account : World → Option (Text × Text)
