-- ===== src/Stellar/Wallet/Outside.antt =====
-- What the wallet asks of Horizon and of the packages keypair, txnbuild and amount, and what it
-- submits.
use tfexplorer.Base.{ℕ, Bool, Option, List}
use tfexplorer.Base.Text.{Text}
use tfexplorer.Program.{Log, Program, Store, or_fail}
use tfexplorer.Stellar.Asset.{Asset}
use tfexplorer.Stellar.Validation.{HorizonClient, get_horizon_client}

pub record Keypair : Type 0 where
  pub address : Text
  pub seed : Text

-- The type Wallet; a nil keypair is that of a wallet without a seed.
pub record Wallet : Type 0 where
  pub keypair : Option Keypair
  pub network : Text
  pub assets : List Asset
  pub signers : List Text

-- An effect of a transaction, with the account that it is about.
pub data EffectKind : Type 0 where
  credited debited : Text → Text → Text → EffectKind
  other_effect : EffectKind

pub record Effect : Type 0 where
  pub account : Text
  pub kind : EffectKind

pub record HorizonTransaction : Type 0 where
  pub memo : Text
  pub hash : Text
  pub paging_token : Text

-- The operations of txnbuild that the wallet makes. All but the first have the account whose
-- details were asked for as their source.
pub data Operation : Type 0 where
  create_account : Text → Text → Operation
  change_trust : Text → Text → Operation
  set_thresholds : ℕ → ℕ → ℕ → ℕ → Operation
  add_signer : Text → ℕ → Operation
  payment : Text → Text → Text → Text → Operation

pub data Passphrase : Type 0 where
  test_passphrase public_passphrase : Passphrase

-- txnbuild.Transaction; `source` is the address of the source account, and `signatures` those of
-- the keys that have signed.
pub record Transaction : Type 0 where
  pub source : Option Text
  pub operations : List Operation
  pub memo : Text
  pub timeout : ℕ
  pub passphrase : Passphrase
  pub base_fee : ℕ
  pub signatures : List Text

pub data Write : Type 0 where
  submit : Transaction → Write

pub record Env : Type 0 where
  pub write_ok : Log Write → Write → Bool
  pub account_exists : HorizonClient → Log Write → Text → Bool
  pub transactions : HorizonClient → Log Write → Text → Text → Option (List HorizonTransaction)
  pub effects : HorizonClient → Log Write → Text → Option (List Effect)
  pub random : Log Write → Option Keypair
  pub parse_full : Text → Option Keypair
  pub encrypt : Keypair → Text → Option Text
  pub decrypt : Keypair → Text → Option Text
  pub parse_amount : Text → Option ℕ
  pub builds : Transaction → Bool

instance abbrev pub wallet_store : Store Env Write
wallet_store = record { write_ok = λ env w c. env.write_ok w c }

-- The panics are those of a wallet without a keypair and of a refund without a funder.
pub data WalletError : Type 0 where
  panic wallet_error : WalletError

abbrev pub Exec : Type 0 → Type 0
Exec A = Program Env Write WalletError A

-- Wallet.GetHorizonClient
abbrev pub client_of : Wallet → Exec HorizonClient
client_of wallet = or_fail wallet_error (get_horizon_client wallet.network)
