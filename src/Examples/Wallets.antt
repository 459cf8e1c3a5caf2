-- ===== src/Examples/Wallets.antt =====
-- Examples of the wallet.
use tfexplorer.Base.{ℕ, zero, suc, ◌*◌, ◌≤◌, ◌<◌, ◌≡◌, Option, some, List, [], ◌∷◌, arith}
use tfexplorer.Base.Text.{Text, codes}
use tfexplorer.Stellar.Wallet.Outside.{
  credited, debited, Effect, HorizonTransaction, Operation, set_thresholds,
}
use tfexplorer.Stellar.Wallet.Balance.{Tally, Subject}
use tfexplorer.Stellar.Wallet.Operations.{setup_escrow_multisig}
use tfexplorer.Stellar.Wallet.Operations.Multisig.{signer_weight, setup_escrow_multisig-threshold}

abbrev deposit : HorizonTransaction
deposit = record { memo = codes "12"; hash = codes "h"; paging_token = codes "1" }

-- Five units go from one account to the other.
abbrev transfer : Text → Option (List Effect)
transfer hash = some (
    record { account = codes "escrow"; kind = credited (codes "TFT") (codes "G") (codes "5") }
    ∷ record { account = codes "anna"; kind = debited (codes "TFT") (codes "G") (codes "5") }
    ∷ [])

abbrev subject : Subject
subject = record {
  address = codes "escrow";
  id = 12;
  asset_code = codes "TFT";
  asset_issuer = codes "G";
}

abbrev no_tally : Tally
no_tally = record { total = 0; donors = [] }

-- A full page of deposits, and one more deposit on the next page.
abbrev repeat : ℕ → List HorizonTransaction
repeat zero = []
repeat (suc n) = deposit ∷ repeat n

abbrev next_page : Text → Option (List HorizonTransaction)
next_page cursor = some (deposit ∷ [])

abbrev three : List Text
three = codes "a" ∷ codes "b" ∷ codes "c" ∷ []

setup_escrow_multisig-threshold_example :
    (t : ℕ) × (ops : List Operation) × (setup_escrow_multisig three ≡ set_thresholds 0 t t 3 ∷ ops)
    × (3 ≤ t)
    × (3 < 2 * t)
    × (t ≤ signer_weight ops)
    × (signer_weight ops ≡ 3)
setup_escrow_multisig-threshold_example =
    setup_escrow_multisig-threshold three (omega arith) (omega arith)
