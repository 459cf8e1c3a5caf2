-- ===== src/Api/Create.antt =====
-- The handler create of pkg/workloads/reservation.go.
pub mod Currencies
pub mod State
use tfexplorer.Base.{
  ℕ, ◌+◌, Bool, true, false, not, Option, none, some, List, [], ◌∷◌, map, ltb, if◌then◌else◌,
  length,
}
use tfexplorer.Base.Int64.{slt}
use tfexplorer.Base.Time.{sub_time, hour}
use tfexplorer.Base.Text.{Text, is_empty}
use tfexplorer.Base.Hex.{decode_string}
use tfexplorer.Models.Workloads.{invalid, delete, Reservation}
use tfexplorer.Reservation.{expired, is_any}
use tfexplorer.Reservation.Validate.{Json, Invalid, validate}
use tfexplorer.Reservation.Nodes.{node_ids, gateway_ids}
use tfexplorer.Reservation.Workloads.{Workload, workloads}
use tfexplorer.Pipeline.{next}
use tfexplorer.Stellar.Asset.{Asset, assets_of, asset_from_code}
use tfexplorer.Escrow.Types.{CustomerEscrowInformation}
use tfexplorer.World.{
  env_store, Env, World, WalletAddress, Farm, insert_reservation, register_reservation, Exec, pure,
  ask, ask_total, write, write_anyway, or_fail, guard, done, ◌>>=◌, ◌>>◌,
}
use tfexplorer.Api.Handler.{Status, bad_request, internal, failed_dependency, panicked}
use Currencies.{offered_currencies}

abbrev is_none : Option Invalid → Bool
is_none none = true
is_none (some e) = false

abbrev check_address : Option Asset → WalletAddress → Exec Status (Unit {0})
check_address none a = pure tt
check_address (some asset) a = do
  valid ← ask_total (λ env w. env.address_valid w env.network asset a.address)
  guard failed_dependency valid

-- The two loops of validAddresses. A code that the wallet does not know is passed over.
check_wallets : List WalletAddress → Exec Status (Unit {0})
check_wallets [] = pure tt
check_wallets (a ∷ more) = do
  known ← (λ env w. (done (asset_from_code (assets_of env.network) a.asset), w))
  check_address known a
  check_wallets more

check_farms : List Farm → Exec Status (Unit {0})
unfolding check_wallets
check_farms [] = pure tt
check_farms (farm ∷ farms) = do check_wallets farm.wallet_addresses; check_farms farms

-- API.validAddresses: without a network the escrow is disabled, and nothing is checked.
unfoldable pub valid_addresses : Reservation → Exec Status (Unit {0})
unfolding check_farms
valid_addresses r = do
  disabled ← (λ env w. (done (is_empty env.network), w))
  if disabled then pure tt else do
    farms ←
        ask failed_dependency
          (λ env w. env.farms_for_nodes w (map (λ (wl : Workload). wl.node_id) (workloads r [])))
    check_farms farms

-- The part of create up to the checks of the pipeline's result.
unfoldable pub accept : Json → Option Reservation → Exec Status Reservation
accept j body = do
  r ← or_fail bad_request body
  now ← ask_total (λ env w. env.now w)
  guard bad_request (not (expired now r))
  now' ← ask_total (λ env w. env.now w)
  guard bad_request (not (slt (sub_time r.data_reservation.expiration_reservation now') hour))
  let fresh = record r {
    signatures_provision = [];
    signatures_delete = [];
    signatures_farmer = [];
    results = [];
  }
  guard bad_request (is_none (validate j fresh))
  now₁ ← ask_total (λ env w. env.now w)
  now₂ ← ask_total (λ env w. env.now w)
  let processed = (next now₁ now₂ fresh).0
  guard bad_request (not (is_any processed (invalid ∷ delete ∷ [])))
  pure processed

-- The free nodes and gateways among those used, and the number used.
unfoldable pub count_nodes : Reservation → Exec Status (ℕ × ℕ)
count_nodes r = do
  nodes ← ask internal (λ env w. env.count_free_nodes w (node_ids r))
  gateways ← ask internal (λ env w. env.count_free_gateways w (gateway_ids r))
  pure (nodes + gateways, length (node_ids r) + length (gateway_ids r))

-- The customer's signature of the JSON text.
unfoldable pub check_customer : Reservation → Exec Status (Unit {0})
check_customer r = do
  user ← ask bad_request (λ env w. env.find_user w r.customer_tid)
  signature ← or_fail bad_request (decode_string r.customer_signature)
  valid ← (λ env w. (done (env.verify user.pubkey r.json signature), w))
  guard bad_request valid

-- Storing the reservation, reading it back, and registering it with the escrow. An ID that cannot
-- be had is a panic.
unfoldable pub store : Reservation → List Text → Exec Status (ℕ × CustomerEscrowInformation)
store r currencies = do
  now ← ask_total (λ env w. env.now w)
  id ← ask panicked (λ env w. env.next_id w)
  write internal (insert_reservation (record r { epoch = now; id = id }))
  r' ← ask internal (λ env w. env.find_reservation w id)
  write_anyway (register_reservation r' currencies)
  info ← ask internal (λ env w. env.registered w)
  pure (r'.id, info)

unfoldable pub create : Json → Option Reservation → Exec Status (ℕ × CustomerEscrowInformation)
create j body = do
  r ← accept j body
  valid_addresses r
  counts ← count_nodes r
  currencies ←
      or_fail panicked (offered_currencies (ltb counts.0 counts.1) r.data_reservation.currencies)
  check_customer r
  store r currencies
