-- ===== src/Escrow/Service.antt =====
-- pkg/escrow/stellar.go: payment, payout and refund of the registered reservations. The functions
-- of pkg/escrow/types that they call are single reads and writes of the database.
pub mod Payout
pub mod Paid
pub mod Progress
use tfexplorer.Base.{
  ℕ, Bool, true, false, ◌||◌, ◌&&◌, not, Option, none, some, List, [], ◌∷◌, ◌++◌, if◌then◌else◌,
}
use tfexplorer.Base.Int64.{add, slt}
use tfexplorer.Base.Text.{Text, text_eq, is_empty}
use tfexplorer.Models.Workloads.{NextAction, pay, deploy, Reservation}
use tfexplorer.Reservation.{is_any}
use tfexplorer.Reservation.Workloads.{workloads}
use tfexplorer.Pipeline.{next}
use tfexplorer.Stellar.Asset.{Asset, code, issuer}
use tfexplorer.Escrow.Types.{EscrowDetail, ReservationPaymentInformation, PayoutInfo}
use tfexplorer.Escrow.Distribution.{PayoutDistribution, Split, asset_distribution, split_payout}
use tfexplorer.World.{
  env_store, Env, World, WalletAddress, Farm, set_next_action, queue_push, update_payment_info,
  payout_farmers, refund, Exec, pure, ask, ask_total, write, or_fail, asked, done, failed, ◌>>=◌,
  ◌>>◌,
}

-- The errors of the escrow: those with a name in the source, the panic on an asset without an
-- issuer, and any other.
pub data EscrowError : Type 0 where
  no_currency_supported no_currency_shared no_distribution panic other_error : EscrowError

-- addressByAsset; `none` is its error.
unfoldable pub address_by_asset : List WalletAddress → Asset → Option Text
address_by_asset [] asset = none
address_by_asset (a ∷ addrs) asset =
    if text_eq a.asset (code asset) && not (is_empty a.address)
    then some a.address
    else address_by_asset addrs asset

-- Stellar.refundEscrow
unfoldable pub refund_escrow : ReservationPaymentInformation → Exec EscrowError (Unit {0})
refund_escrow info = do
  address ← ask other_error (λ env w. env.find_address_by_address w info.address)
  write other_error (refund address.secret info.reservation_id info.asset)

-- Stellar.refundClients
unfoldable pub refund_clients : ℕ → Exec EscrowError (Unit {0})
unfolding refund_escrow
refund_clients id = do
  rpi ← ask other_error (λ env w. env.find_payment_info w id)
  if rpi.released || rpi.canceled then pure tt else do
    refund_escrow rpi
    write other_error (update_payment_info (record rpi { canceled = true }))

-- One round of the loop of refundExpiredReservations: an error ends only the round.
unfoldable pub refund_expired : ReservationPaymentInformation → Exec EscrowError (Unit {0})
unfolding refund_escrow
refund_expired info = do
  refund_escrow info
  write other_error (update_payment_info (record info { canceled = true }))

-- `for _, x := range xs` over a body whose errors are logged and passed over.
for_each : {A : Type 0} → (A → Exec EscrowError (Unit {0})) → List A → Exec EscrowError (Unit {0})
for_each body [] env w = (done tt, w)
for_each body (x ∷ xs) env w = for_each body xs env (body x env w).1

-- Stellar.refundExpiredReservations
unfoldable pub refund_expired_reservations : Exec EscrowError (Unit {0})
unfolding refund_expired for_each
refund_expired_reservations = do
  now ← ask_total (λ env w. env.now w)
  infos ← ask other_error (λ env w. env.expired_payment_infos w now)
  for_each refund_expired infos

-- The amounts of a payment, summed up in an int64 that starts at `sum`.
unfoldable pub required_value : ℕ → List EscrowDetail → ℕ
required_value sum [] = sum
required_value sum (d ∷ details) = required_value (add sum d.total_amount) details

-- workloadtypes.ReservationToDeploy
unfoldable pub reservation_to_deploy : Reservation → Exec EscrowError (Unit {0})
reservation_to_deploy r = do
  write other_error (set_next_action r.id deploy)
  write other_error (queue_push (workloads r []))

-- What checkReservationPaid does with a reservation that is funded.
unfoldable pub move_to_deploy :
    ReservationPaymentInformation → Reservation → Exec EscrowError (Unit {0})
unfolding reservation_to_deploy
move_to_deploy info r = if not (is_any r (pay ∷ [])) then pure tt else do
  reservation_to_deploy r
  write other_error (update_payment_info (record info { paid = true }))

-- Stellar.checkReservationPaid
unfoldable pub check_reservation_paid : ReservationPaymentInformation → Exec EscrowError (Unit {0})
unfolding move_to_deploy required_value
check_reservation_paid info = do
  balance ← ask other_error (λ env w. env.balance w info.address info.reservation_id info.asset)
  if slt balance (required_value 0 info.infos) then pure tt else do
    r ← ask other_error (λ env w. env.find_reservation w info.reservation_id)
    now ← ask_total (λ env w. env.now w)
    now' ← ask_total (λ env w. env.now w)
    move_to_deploy info (next now now' r).0

-- Stellar.checkReservations
unfoldable pub check_reservations : Exec EscrowError (Unit {0})
unfolding check_reservation_paid for_each
check_reservations = do
  now ← ask_total (λ env w. env.now w)
  infos ← ask other_error (λ env w. env.active_payment_infos w now)
  for_each check_reservation_paid infos

-- What the loop of payoutFarmers collects.
pub record Collected : Type 0 where
  pub farmers : List PayoutInfo
  pub to_burn : ℕ
  pub to_foundation : ℕ

-- The farmer's part, if the farm and its address are found; errors are logged and passed over.
abbrev pub pay_at : ℕ → Option Text → List PayoutInfo → List PayoutInfo
pay_at amount none infos = infos
pay_at amount (some address) infos = infos ++ record { address = address; amount = amount } ∷ []

abbrev pub address_of : Option Farm → Asset → Option Text
address_of none asset = none
address_of (some farm) asset = address_by_asset farm.wallet_addresses asset

unfoldable pub collect_payout :
    Asset → PayoutDistribution → List EscrowDetail → Collected → Env → World → Collected × World
collect_payout asset d [] c env w = (c, w)
collect_payout asset d (detail ∷ details) c env w =
    let s = split_payout detail.total_amount d in
    let c' = record c {
      to_burn = add c.to_burn s.to_burn;
      to_foundation = add c.to_foundation s.to_foundation;
    } in
    let paid =
      collect_payout asset d details
        (record c' {
          farmers =
              pay_at s.to_farmer (address_of (env.find_farm w detail.farmer_id) asset) c'.farmers;
        })
        env (asked w) in
    let unpaid = collect_payout asset d details c' env w in
    if slt 0 s.to_farmer then paid else unpaid

-- The payments after the loop: the burn goes to the issuer, the remainder to the foundation.
unfoldable pub add_burn : Asset → Collected → Option (List PayoutInfo)
add_burn asset c =
    if slt 0 c.to_burn
    then elim (issuer asset) [
      | none ↦ none
      | some i ↦ some (c.farmers ++ record { address = i; amount = c.to_burn } ∷ [])
    ]
    else some c.farmers

unfoldable pub add_foundation : Text → Collected → List PayoutInfo → List PayoutInfo
add_foundation foundation c infos =
    if slt 0 c.to_foundation
    then infos ++ record { address = foundation; amount = c.to_foundation } ∷ []
    else infos

-- Stellar.payoutFarmers after the loop.
unfoldable pub send : ℕ → ReservationPaymentInformation → Collected → Exec EscrowError (Unit {0})
send id rpi c = do
  burnt ← or_fail panic (add_burn rpi.asset c)
  foundation ← (λ env w. (done env.foundation_address, w))
  address ← ask other_error (λ env w. env.find_address_by_address w rpi.address)
  write other_error (payout_farmers address.secret (add_foundation foundation c burnt) id rpi.asset)
  write other_error (refund address.secret id rpi.asset)
  write other_error (update_payment_info (record rpi { released = true }))

abbrev pub nothing : Collected
nothing = record { farmers = []; to_burn = 0; to_foundation = 0 }

-- Stellar.payoutFarmers from the loaded payment information on.
unfoldable pub payout :
    ℕ → ReservationPaymentInformation → PayoutDistribution → Exec EscrowError (Unit {0})
payout id rpi d env w =
    let (c, w') = collect_payout rpi.asset d rpi.infos nothing env w in send id rpi c env w'

-- Stellar.payoutFarmers
unfoldable pub payout_farmers_of : ℕ → Exec EscrowError (Unit {0})
payout_farmers_of id = do
  rpi ← ask other_error (λ env w. env.find_payment_info w id)
  if rpi.released || rpi.canceled
      then pure tt
      else do d ← or_fail no_distribution (asset_distribution rpi.asset); payout id rpi d
