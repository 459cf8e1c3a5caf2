-- ===== src/Stellar/Validation.antt =====
-- pkg/stellar/validation.go: the validator of the addresses to which farmers are paid.
use tfexplorer.Base.{Bool, true, false, ◌||◌, not, Option, none, some, List, [], ◌∷◌, if◌then◌else◌}
use tfexplorer.Base.Text.{Text, codes, text_eq}
use tfexplorer.Stellar.Asset.{Asset, code, issuer, asset_from_code, assets_of}

-- A balance of an account, as Horizon tells it.
pub record Balance : Type 0 where
  pub balance_code : Text
  pub balance_issuer : Text
  pub limit : Text

pub data HorizonClient : Type 0 where
  test_net public_net : HorizonClient

-- AddressValidator.getHorizonClient and Wallet.GetHorizonClient; `none` is a network that is not
-- supported.
unfoldable pub get_horizon_client : Text → Option HorizonClient
get_horizon_client network =
    if text_eq network (codes "testnet")
    then some test_net
    else if text_eq network (codes "production")
    then some public_net
    else none

pub record AddressValidator : Type 0 where
  pub network : Text
  pub asset : Asset

abbrev validator_for : Text → Option Asset → Option AddressValidator
validator_for network none = none
validator_for network (some a) = some (record { network = network; asset = a })

-- NewAddressValidator: without a seed the wallet is made without an error, so that `none` is
-- ErrAssetCodeNotSupported.
unfoldable pub new_address_validator : Text → Text → Option AddressValidator
unfolding assets_of asset_from_code
new_address_validator network asset_code =
    validator_for network (asset_from_code (assets_of network) asset_code)

-- `limit_is_positive` is strconv.ParseFloat without an error and with a result above 0.
unfoldable pub has_trustline : (Text → Bool) → Text → Text → List Balance → Bool
has_trustline limit_is_positive code' issuer' [] = false
has_trustline limit_is_positive code' issuer' (b ∷ balances) =
    let rest = has_trustline limit_is_positive code' issuer' balances in
    if not (text_eq b.balance_code code') || not (text_eq b.balance_issuer issuer')
    then rest
    else if limit_is_positive b.limit
    then true
    else rest

abbrev account_of :
    (HorizonClient → Text → Option (List Balance))
    → Option HorizonClient
    → Text
    → Option (List Balance)
account_of account none address = none
account_of account (some client) address = account client address

abbrev trusts : (Text → Bool) → Asset → Option Text → Option (List Balance) → Bool
trusts limit_is_positive a (some issuer') (some balances) =
    has_trustline limit_is_positive (code a) issuer' balances
trusts limit_is_positive a _ _ = false

-- AddressValidator.Valid, with getAccountDetails: `true` is a nil error. The assets of a validator
-- have an issuer.
unfoldable pub is_valid_address :
    (HorizonClient → Text → Option (List Balance)) → (Text → Bool) → AddressValidator → Text → Bool
unfolding get_horizon_client has_trustline issuer
is_valid_address account limit_is_positive v address =
    if text_eq v.network (codes "debug")
    then true
    else trusts limit_is_positive v.asset (issuer v.asset)
        (account_of account (get_horizon_client v.network) address)
