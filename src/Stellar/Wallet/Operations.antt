-- ===== src/Stellar/Wallet/Operations.antt =====
-- The operations of the wallet's transactions: setupTrustline, setupEscrowMultisig and the payments.
pub mod Multisig
use tfexplorer.Base.{
  ℕ, zero, suc, ◌+◌, ◌-◌, ◌*◌, ◌/◌, ◌%◌, Option, none, some, List, [], ◌∷◌, ◌++◌, map, length, ltb,
  if◌then◌else◌,
}
use tfexplorer.Base.Int64.{modulus, is_neg}
use tfexplorer.Base.Text.{Text, codes}
use tfexplorer.Base.Decimal.{print}
use tfexplorer.Stellar.Asset.{Asset, code, issuer}
use tfexplorer.Escrow.Types.{PayoutInfo}
use tfexplorer.Stellar.Wallet.Outside.{
  Wallet, Operation, change_trust, set_thresholds, add_signer, payment,
}

abbrev pub stellar_precision : ℕ
stellar_precision = 10_000_000

abbrev pub stellar_one_coin : ℕ
stellar_one_coin = 10_000_000

-- The last digits of a number, with zeros in front.
unfoldable pub pad_digits : ℕ → ℕ → Text
pad_digits zero n = []
pad_digits (suc k) n = pad_digits k (n / 10) ++ (b'0' + n % 10) ∷ []

abbrev coins : ℕ → Text
coins n = print (n / stellar_precision) ++ b'.' ∷ pad_digits 7 (n % stellar_precision)

-- big.NewRat(int64(a), stellarPrecision).FloatString(stellarPrecisionDigits), which is exact.
unfoldable pub format_amount : ℕ → Text
unfolding pad_digits
format_amount a = if is_neg a then b'-' ∷ coins (modulus - a) else coins a

-- Wallet.setupTrustline; `none` is the panic on an asset without an issuer.
abbrev trust : Asset → Option Text → Option (List Operation) → Option (List Operation)
trust a (some issuer') (some ops) = some (change_trust (code a) issuer' ∷ ops)
trust a _ _ = none

unfoldable pub setup_trustline : List Asset → Option (List Operation)
setup_trustline [] = some []
setup_trustline (a ∷ assets) = trust a (issuer a) (setup_trustline assets)

-- txnbuild.Threshold is a uint8.
abbrev pub threshold : ℕ → ℕ
threshold n = n % 256

-- The threshold to complete a transaction, for a number of signers.
unfoldable pub tx_threshold : ℕ → ℕ
tx_threshold n = if ltb 3 n then threshold (n / 2 + 1) else threshold 3

abbrev sign_with : Text → Operation
sign_with signer = add_signer signer 1

-- Wallet.setupEscrowMultisig, without operations for less than three signers. A set_thresholds has
-- the low, the medium and the high threshold and the weight of the master key.
unfoldable pub setup_escrow_multisig : List Text → List Operation
unfolding tx_threshold
setup_escrow_multisig signers =
    if ltb (length signers) 3
    then []
    else set_thresholds 0 (tx_threshold (length signers)) (tx_threshold (length signers))
        (threshold (length signers))
      ∷ map sign_with signers

-- Wallet.getMinumumBalance
unfoldable pub get_minimum_balance : Wallet → ℕ
get_minimum_balance w = (2 + length w.assets + length w.signers) * (stellar_one_coin / 2)

unfoldable pub pay_to : Asset → Text → PayoutInfo → Operation
unfolding format_amount
pay_to a issuer' info = payment info.address (format_amount info.amount) (code a) issuer'
