-- ===== src/Stellar/Wallet/Balance/Pages.antt =====
-- The pages of the history of an address, put together.
use tfexplorer.Base.{ℕ, suc, ◌≡◌, true, false, Option, some, List, ◌++◌, length, ltb}
use tfexplorer.Base.Text.{Text}
use tfexplorer.Stellar.Wallet.Outside.{HorizonTransaction}
use tfexplorer.Stellar.Wallet.Balance.{page_limit, last_token}

-- From a page that was read with the cursor in front of it, the list of all transactions that come
-- in `n` more pages: a page that is not full is the last.
pub data History (transactions : Text → Option (List HorizonTransaction))
    : ℕ → Text → List HorizonTransaction → List HorizonTransaction → Type 0 where
  last_page :
      {cursor : Text} {txs : List HorizonTransaction}
      → ltb (length txs) page_limit ≡ true
      → History transactions 0 cursor txs txs
  full_page :
      {n : ℕ} {cursor : Text} {txs txs' rest : List HorizonTransaction}
      → ltb (length txs) page_limit ≡ false
      → transactions (last_token cursor txs) ≡ some txs'
      → History transactions n (last_token cursor txs) txs' rest
      → History transactions (suc n) cursor txs (txs ++ rest)
