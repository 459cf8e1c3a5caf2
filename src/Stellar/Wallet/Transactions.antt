-- ===== src/Stellar/Wallet/Transactions.antt =====
-- The transactions of the wallet: Refund, PayoutFarmers and CreateAccount.
use tfexplorer.Base.{
  ℕ, ◌*◌, ◌%◌, ◌^◌, Bool, true, false, none, some, List, [], ◌∷◌, ◌++◌, ◌==◌, map, length,
  if◌then◌else◌,
}
use tfexplorer.Base.Text.{Text, codes, text_eq}
use tfexplorer.Base.Decimal.{format_int}
use tfexplorer.Program.{
  pure, fail, ask, ask_total, or_fail, guard, derive, derive_total, write, ◌>>=◌, ◌>>◌,
}
use tfexplorer.Stellar.Asset.{Asset, code, issuer}
use tfexplorer.Escrow.Types.{PayoutInfo}
use tfexplorer.Stellar.Wallet.Outside.{
  Keypair, Wallet, Operation, create_account, payment, Passphrase, test_passphrase,
  public_passphrase, Transaction, submit, panic, wallet_error, Exec, client_of, wallet_store,
}
use tfexplorer.Stellar.Wallet.Balance.{get_balance}
use tfexplorer.Stellar.Wallet.Operations.{
  format_amount, setup_trustline, setup_escrow_multisig, get_minimum_balance, pay_to,
}

-- Wallet.GetNetworkPassPhrase
unfoldable pub get_network_pass_phrase : Wallet → Passphrase
get_network_pass_phrase wallet =
    if text_eq wallet.network (codes "production") then public_passphrase else test_passphrase

-- Wallet.PublicAddress
unfoldable pub public_address : Wallet → Text
public_address wallet = elim wallet.keypair [ none ↦ [] | some k ↦ k.address ]

-- Wallet.GetAccountDetails: the account has the address that was asked for.
unfoldable pub get_account_details : Wallet → Text → Exec (Unit {0})
get_account_details wallet address = do
  client ← client_of wallet
  exists ← ask_total (λ env w. env.account_exists client w address)
  guard wallet_error exists

-- The wallet's own keypair, without which it panics.
abbrev pub own_keypair : Wallet → Exec Keypair
own_keypair wallet = or_fail panic wallet.keypair

-- Wallet.keypairFromEncryptedSeed
unfoldable pub keypair_from_encrypted_seed : Wallet → Text → Exec Keypair
keypair_from_encrypted_seed wallet seed = do
  own ← own_keypair wallet
  plain ← derive wallet_error (λ env. env.decrypt own seed)
  derive wallet_error (λ env. env.parse_full plain)

abbrev has_operations : List Operation → Bool
has_operations [] = false
has_operations (o ∷ ops) = true

-- The transaction that fundTransaction builds and signs: its source account is the wallet's.
abbrev pub funded : Keypair → Transaction → Transaction
funded own tx = record tx {
  source = some own.address;
  base_fee = tx.base_fee * length tx.operations % 2 ^ 32;
}

abbrev pub signed_by : Keypair → Transaction → Transaction
signed_by k tx = record tx { signatures = tx.signatures ++ k.address ∷ [] }

-- Wallet.fundTransaction. Signing by a keypair with a seed has no error.
unfoldable pub fund_transaction : Wallet → Transaction → Exec Transaction
unfolding get_account_details
fund_transaction wallet tx = do
  own ← own_keypair wallet
  get_account_details wallet own.address
  guard wallet_error (has_operations tx.operations)
  built ← derive_total (λ env. env.builds (funded own tx))
  guard wallet_error built
  pure (signed_by own (funded own tx))

-- Wallet.signAndSubmitTx
unfoldable pub sign_and_submit_tx : Wallet → Keypair → Transaction → Exec (Unit {0})
sign_and_submit_tx wallet k tx = do
  client ← client_of wallet
  write wallet_error (submit (signed_by k tx))

-- The transactions of the wallet before they are funded.
abbrev pub transaction_of : Wallet → List Operation → Text → Transaction
transaction_of wallet ops memo = record {
  source = none;
  operations = ops;
  memo = memo;
  timeout = 300;
  passphrase = get_network_pass_phrase wallet;
  base_fee = 0;
  signatures = [];
}

-- The end of Refund, PayoutFarmers and setupEscrow.
unfoldable pub fund_and_submit : Wallet → Keypair → List Operation → Text → Exec (Unit {0})
unfolding fund_transaction sign_and_submit_tx
fund_and_submit wallet k ops memo = do
  tx ← fund_transaction wallet (transaction_of wallet ops memo)
  sign_and_submit_tx wallet k tx

-- funders[0], with the panic of an empty list.
abbrev pub first_funder : List Text → Exec Text
first_funder [] = fail panic
first_funder (f ∷ funders) = pure f

-- Wallet.Refund, with fuel for the pages of its balance.
unfoldable pub refund_reservation : ℕ → Wallet → Text → ℕ → Asset → Exec (Unit {0})
refund_reservation fuel wallet encrypted_seed id asset = do
  k ← keypair_from_encrypted_seed wallet encrypted_seed
  t ← get_balance fuel wallet k.address id asset
  if t.total == 0 then pure tt else do
    get_account_details wallet k.address
    destination ← first_funder t.donors
    issuer' ← or_fail panic (issuer asset)
    fund_and_submit wallet k (payment destination (format_amount t.total) (code asset) issuer' ∷ [])
        (format_int id)

-- Wallet.PayoutFarmers
unfoldable pub pay_farmers : Wallet → Text → List PayoutInfo → ℕ → Asset → Exec (Unit {0})
pay_farmers wallet encrypted_seed destinations id asset = do
  k ← keypair_from_encrypted_seed wallet encrypted_seed
  get_account_details wallet k.address
  issuer' ← or_fail panic (issuer asset)
  fund_and_submit wallet k (map (pay_to asset issuer') destinations) (format_int id)

-- The transaction that creates an escrow account with its least balance.
abbrev activation : Wallet → Keypair → Transaction
activation wallet new_kp =
    transaction_of wallet
      (create_account new_kp.address (format_amount (get_minimum_balance wallet)) ∷ []) []

-- Wallet.activateEscrowAccount, whose transaction the wallet signs alone.
unfoldable pub activate_escrow_account : Wallet → Keypair → Exec (Unit {0})
activate_escrow_account wallet new_kp = do
  own ← own_keypair wallet
  let tx : Transaction = record (activation wallet new_kp) { source = some own.address }
  built ← derive_total (λ env. env.builds tx)
  guard wallet_error built
  write wallet_error (submit (signed_by own tx))

-- Wallet.setupEscrow
unfoldable pub setup_escrow : Wallet → Keypair → Exec (Unit {0})
setup_escrow wallet new_kp = do
  trustlines ← or_fail panic (setup_trustline wallet.assets)
  fund_and_submit wallet new_kp (trustlines ++ setup_escrow_multisig wallet.signers) []

-- Wallet.CreateAccount: the encrypted seed and the address.
unfoldable pub create_escrow_account : Wallet → Exec (Text × Text)
create_escrow_account wallet = do
  client ← client_of wallet
  new_kp ← ask wallet_error (λ env w. env.random w)
  own ← own_keypair wallet
  get_account_details wallet own.address
  activate_escrow_account wallet new_kp
  get_account_details wallet new_kp.address
  setup_escrow wallet new_kp
  encrypted ← derive wallet_error (λ env. env.encrypt own new_kp.seed)
  pure (encrypted, new_kp.address)
