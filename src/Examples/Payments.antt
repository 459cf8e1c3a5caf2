-- ===== src/Examples/Payments.antt =====
-- Examples of the escrow.
use tfexplorer.Base.{
  ℕ, ◌+◌, ◌≤◌, ◌≡◌, ◌≢◌, ◌↔◌, ◌⊎◌, refl, true, false, Option, some, List, [], ◌∷◌, arith,
}
use tfexplorer.Base.Int64.{slt, add}
use tfexplorer.Base.Text.{Text, codes, text_eq}
use tfexplorer.Models.Workloads.{pay, Reservation}
use tfexplorer.Reservation.{is_any, expired}
use tfexplorer.Base.Time.{sub_time}
use tfexplorer.Pipeline.{next, advance, check_delete_signatures, quorum_reached}
use tfexplorer.Stellar.Asset.{tft_testnet, assets_of, asset_from_code}
use tfexplorer.Escrow.Types.{CustomerEscrowInformation}
use tfexplorer.Escrow.Distribution.{PayoutDistribution, validate, asset_distribution, split_payout}
use tfexplorer.Escrow.Distribution.Laws.{split_payout_conserves, validate_iff}
use tfexplorer.Escrow.Resources.{
  PerFarmer, process_reservation_resources, per_node, per_farmer, calculate_reservation_cost,
}
use tfexplorer.Escrow.Resources.Totals.{total, used_by, resources_total}
use tfexplorer.Escrow.Service.{
  required_value, move_to_deploy, reservation_to_deploy, check_reservation_paid, payout_farmers_of,
}
use tfexplorer.Escrow.Service.Payout.{paid_out, payout_le_total}
use tfexplorer.Escrow.Service.Paid.{deploy_needs_payment}
use tfexplorer.Escrow.Register.{
  supported_currencies, process_reservation, process_in, charge, register, choose_currency, choose,
  check_asset_support, create_or_load_account, details_of,
}
use tfexplorer.Escrow.Register.Stored.{IsStored, process_reservation-IsStored}
use tfexplorer.Escrow.Register.Currency.{first, registered_in_first}
use tfexplorer.World.{Env, update_payment_info, done}
use tfexplorer.Examples.Data.{
  cons≢nil, data_of, reservation, no_writes, payment, env_of, whole_floats,
}

abbrev awaiting : Reservation
awaiting = reservation pay []

abbrev env : Env
env = env_of awaiting false

abbrev settled : Env
settled = env_of awaiting true

writes_something : (check_reservation_paid (payment false) env no_writes).1.writes ≢ []
unfolding check_reservation_paid required_value move_to_deploy reservation_to_deploy is_any next
    advance add expired sub_time check_delete_signatures quorum_reached
writes_something =
    cons≢nil (check_reservation_paid (payment false) env no_writes).1.writes
      {c = update_payment_info (record (payment false) { paid = true })} refl

deploy_needs_payment_example :
    (balance : ℕ) × (r : Reservation) × (some 1000 ≡ some balance)
    × (slt balance (required_value 0 (payment false).infos) ≡ false)
    × (some awaiting ≡ some r)
    × ((next 5 5 r).0.next_action ≡ pay)
deploy_needs_payment_example = deploy_needs_payment (payment false) env no_writes writes_something

payout_le_total_example : paid_out (payout_farmers_of 12 env no_writes).1.writes ≤ 1000
payout_le_total_example =
    payout_le_total 12 env no_writes {rpi = payment false} refl (omega arith, tt) (omega arith)

abbrev shares : PayoutDistribution
shares = record { farmer = 90; burned = 0; foundation = 10 }

split_payout_conserves_example :
    (split_payout 1234567 shares).to_farmer
      + (split_payout 1234567 shares).to_burn
      + (split_payout 1234567 shares).to_foundation
    ≡ 1234560
split_payout_conserves_example = split_payout_conserves 1234567 shares (omega arith) refl

validate_iff_example :
    (validate shares ≡ true) ↔ ((90 + 0 + 10 ≡ 100) ⊎ (90 + 0 + 10 ≡ 356) ⊎ (90 + 0 + 10 ≡ 612))
validate_iff_example = validate_iff shares (omega arith) (omega arith) (omega arith)

abbrev farm_of : Text → Option ℕ
farm_of id = some 1

abbrev used : PerFarmer whole_floats
used = (1, record { cru = 0; sru = 10; hru = 0; mru = 0 }) ∷ []

uses : process_reservation_resources whole_floats farm_of (data_of 2000) ≡ some used
unfolding process_reservation_resources per_node per_farmer add
uses = refl

resources_total_example :
    (total (λ r. r.cru) used ≡ used_by whole_floats (λ r. r.cru) (data_of 2000))
    × (total (λ r. r.sru) used ≡ used_by whole_floats (λ r. r.sru) (data_of 2000))
    × (total (λ r. r.hru) used ≡ used_by whole_floats (λ r. r.hru) (data_of 2000))
resources_total_example = resources_total whole_floats farm_of (data_of 2000) used uses

abbrev offered : List Text
offered = codes "BTC" ∷ codes "TFT" ∷ []

abbrev registered : CustomerEscrowInformation
registered = record {
  address = codes "C";
  asset = tft_testnet;
  details = record { farmer_id = 1; total_amount = 2000000 } ∷ [];
}

registers : (process_reservation whole_floats awaiting offered env no_writes).0 ≡ done registered
unfolding process_reservation process_in charge register choose_currency choose supported_currencies
    process_reservation_resources per_node per_farmer add asset_from_code assets_of text_eq
    asset_distribution check_asset_support calculate_reservation_cost create_or_load_account
    details_of sub_time
registers = refl

registered_in_first_example :
    first (supported_currencies (assets_of (codes "testnet")) offered) ≡ some tft_testnet
registered_in_first_example =
    registered_in_first whole_floats awaiting offered env no_writes {info = registered} registers

process_reservation-IsStored_example :
    IsStored awaiting registered (process_reservation whole_floats awaiting offered env no_writes).1
process_reservation-IsStored_example =
    process_reservation-IsStored whole_floats awaiting offered env no_writes {info = registered}
      registers
