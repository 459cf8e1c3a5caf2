-- ===== src/Escrow/Register.antt =====
-- Stellar.processReservation of pkg/escrow/stellar.go: the currency, the cost and the escrow
-- account of a new reservation.
pub mod Currency
pub mod Stored
use tfexplorer.Base.{
  ℕ, Bool, true, false, not, Option, none, some, List, [], ◌∷◌, ◌==◌, if◌then◌else◌,
}
use tfexplorer.Base.Text.{Text, is_empty}
use tfexplorer.Base.Time.{sub_time}
use tfexplorer.Models.Workloads.{Reservation}
use tfexplorer.Stellar.Asset.{Asset, assets_of, asset_from_code}
use tfexplorer.Escrow.Types.{
  EscrowDetail, ReservationPaymentInformation, CustomerEscrowInformation, CustomerAddress,
}
use tfexplorer.Escrow.Distribution.{PayoutDistribution, asset_distribution}
use tfexplorer.Escrow.Resources.{
  Floats, PerFarmer, process_reservation_resources, calculate_reservation_cost,
}
use tfexplorer.Escrow.Service.{
  EscrowError, no_currency_supported, no_currency_shared, other_error, address_of,
}
use tfexplorer.World.{
  env_store, Env, World, Farm, create_payment_info, create_address, create_account, Exec, pure,
  fail, ask, ask_total, write, write_anyway, or_fail, guard, ◌>>=◌, ◌>>◌,
}

abbrev with_distribution : Option PayoutDistribution → Asset → List Asset → List Asset
with_distribution none asset rest = rest
with_distribution (some d) asset rest = asset ∷ rest

abbrev with_asset : Option Asset → List Asset → List Asset
with_asset none rest = rest
with_asset (some asset) rest = with_distribution (asset_distribution asset) asset rest

-- The first loop: the offered currencies that the wallet and the escrow know.
unfoldable pub supported_currencies : List Asset → List Text → List Asset
supported_currencies assets [] = []
supported_currencies assets (offered ∷ more) =
    with_asset (asset_from_code assets offered) (supported_currencies assets more)

abbrev has_address : Option Text → Bool
has_address none = false
has_address (some a) = true

-- Stellar.checkAssetSupport
unfoldable pub check_asset_support : List ℕ → Asset → Exec EscrowError Bool
check_asset_support [] asset = pure true
check_asset_support (id ∷ ids) asset = do
  farm ← ask other_error (λ env w. env.find_farm w id)
  let rest = check_asset_support ids asset
  if has_address (address_of (some farm) asset) then rest else pure false

-- assetDistributions[currency].farmer; a missing entry reads as the zero value.
abbrev farmer_percentage : Option PayoutDistribution → ℕ
farmer_percentage none = 0
farmer_percentage (some d) = d.farmer

-- The second loop, with the variables `farmIDs` and `asset` that it passes to checkAssetSupport.
-- The result is the value of `asset` after the loop.
unfoldable pub choose : List ℕ → Asset → List Asset → Exec EscrowError Asset
choose farm_ids asset [] = pure asset
choose farm_ids asset (currency ∷ currencies) = do
  let rest = choose farm_ids asset currencies
  if farmer_percentage (asset_distribution currency) == 0 then pure currency else do
    supported ← check_asset_support farm_ids asset
    if supported then pure currency else rest

-- The branch of createOrLoadAccount for a customer without an address.
unfoldable pub create_account_for : ℕ → Exec EscrowError Text
create_account_for tid = do
  write_anyway create_account
  account ← ask other_error (λ env w. env.new_account w)
  write other_error
      (create_address (record { customer_tid = tid; address = account.1; secret = account.0 }))
  pure account.1

-- Stellar.createOrLoadAccount. The question distinguishes an error from an address not found.
unfoldable pub create_or_load_account : ℕ → Exec EscrowError Text
create_or_load_account tid = do
  found ← ask other_error (λ env w. env.find_address w tid)
  elim found [ none ↦ create_account_for tid | some a ↦ pure a.address ]

unfoldable pub details_of : List (ℕ × ℕ) → List EscrowDetail
details_of [] = []
details_of ((farmer, value) ∷ costs) =
    record { farmer_id = farmer; total_amount = value } ∷ details_of costs

abbrev is_empty_list : List Asset → Bool
is_empty_list [] = true
is_empty_list (a ∷ assets) = false

-- `farmIDs` is made with length 0 and never filled, and `asset` is declared empty.
unfoldable pub choose_currency : List Asset → Exec EscrowError Asset
choose_currency currencies = choose [] [] currencies

-- From the chosen asset on.
unfoldable pub register :
    Reservation → List (ℕ × ℕ) → Asset → Exec EscrowError CustomerEscrowInformation
register r costs asset = do
  address ← create_or_load_account r.customer_tid
  write other_error (
      create_payment_info (record {
        reservation_id = r.id;
        address = address;
        expiration = r.data_reservation.expiration_provisioning;
        asset = asset;
        infos = details_of costs;
        paid = false;
        released = false;
        canceled = false;
      }))
  pure (record { address = address; asset = asset; details = details_of costs })

-- From the calculation of the cost on.
unfoldable pub charge :
    (fl : Floats) → Reservation → PerFarmer fl → Asset → Exec EscrowError CustomerEscrowInformation
charge fl r rsu_per_farmer asset = do
  guard no_currency_shared (not (is_empty asset))
  now ← ask_total (λ env w. env.now w)
  costs ← or_fail other_error (
      calculate_reservation_cost fl rsu_per_farmer
        (sub_time r.data_reservation.expiration_reservation now))
  register r costs asset

-- Stellar.processReservation after its first loop.
unfoldable pub process_in :
    (fl : Floats) → Reservation → List Asset → Exec EscrowError CustomerEscrowInformation
process_in fl r currencies = do
  guard no_currency_supported (not (is_empty_list currencies))
  rsu_per_farmer ←
      ask other_error
        (λ env w. process_reservation_resources fl (env.find_node_farm w) r.data_reservation)
  asset ← choose_currency currencies
  charge fl r rsu_per_farmer asset

-- Stellar.processReservation
unfoldable pub process_reservation :
    (fl : Floats) → Reservation → List Text → Exec EscrowError CustomerEscrowInformation
process_reservation fl r offered env w =
    process_in fl r (supported_currencies (assets_of env.network) offered) env w
