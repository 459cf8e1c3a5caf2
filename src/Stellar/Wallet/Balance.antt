-- ===== src/Stellar/Wallet/Balance.antt =====
-- Wallet.GetBalance: the funds of an address for a reservation, and who sent them.
pub mod Pages
use tfexplorer.Base.{
  ℕ, zero, suc, Bool, true, false, not, ◌&&◌, ◌||◌, Option, none, some, List, [], ◌∷◌, ◌++◌, any,
  length, ltb, if◌then◌else◌,
}
use tfexplorer.Base.Int64.{add, sub}
use tfexplorer.Base.Text.{Text, text_eq, is_empty}
use tfexplorer.Base.Decimal.{format_int}
use tfexplorer.Program.{Log, pure, fail, ask, or_fail, guard, ◌>>=◌, ◌>>◌}
use tfexplorer.Stellar.Asset.{Asset, code, issuer}
use tfexplorer.Stellar.Validation.{HorizonClient}
use tfexplorer.Stellar.Wallet.Outside.{
  Wallet, EffectKind, credited, debited, other_effect, Effect, HorizonTransaction, Env, Write,
  WalletError, panic, wallet_error, Exec, client_of,
}

abbrev pub page_limit : ℕ
page_limit = 200

-- The sum so far, as an xdr.Int64, and the donors.
pub record Tally : Type 0 where
  pub total : ℕ
  pub donors : List Text

-- Whose funds are counted, and in what.
pub record Subject : Type 0 where
  pub address : Text
  pub id : ℕ
  pub asset_code : Text
  pub asset_issuer : Text

-- What one effect does to the sum and to isFunding.
unfoldable pub credit : Option ℕ → ℕ × Bool → ℕ × Bool
credit none s = s
credit (some n) s = (add s.0 n, true)

unfoldable pub debit : Option ℕ → ℕ × Bool → ℕ × Bool
debit none s = s
debit (some n) s = (sub s.0 n, false)

abbrev is_asset : Subject → Text → Text → Bool
is_asset subject code' issuer' =
    text_eq code' subject.asset_code && text_eq issuer' subject.asset_issuer

unfoldable pub count_kind : (Text → Option ℕ) → Subject → EffectKind → ℕ × Bool → ℕ × Bool
unfolding credit debit
count_kind parse_amount subject (credited code' issuer' n) s =
    if is_asset subject code' issuer' then credit (parse_amount n) s else s
count_kind parse_amount subject (debited code' issuer' n) s =
    if is_asset subject code' issuer' then debit (parse_amount n) s else s
count_kind parse_amount subject other_effect s = s

-- The first loop over the effects of a transaction, from the sum so far and isFunding.
unfoldable pub count_effects : (Text → Option ℕ) → Subject → List Effect → ℕ × Bool → ℕ × Bool
unfolding count_kind
count_effects parse_amount subject [] s = s
count_effects parse_amount subject (e ∷ es) s =
    count_effects parse_amount subject es
      (if text_eq e.account subject.address then count_kind parse_amount subject e.kind s else s)

abbrev is_debited : EffectKind → Bool
is_debited (credited code' issuer' n) = false
is_debited (debited code' issuer' n) = true
is_debited other_effect = false

-- An entry of the map of donors.
unfoldable pub add_donor : Text → List Text → List Text
add_donor donor donors = if any (text_eq donor) donors then donors else donors ++ donor ∷ []

-- The second loop over the effects.
unfoldable pub add_donors : Subject → List Effect → List Text → List Text
unfolding add_donor
add_donors subject [] donors = donors
add_donors subject (e ∷ es) donors = add_donors subject es (
    if is_debited e.kind && not (text_eq e.account subject.address)
    then add_donor e.account donors
    else donors)

-- What a transaction of the reservation adds; `none` is an error of the effects, which is logged.
unfoldable pub tally_effects : (Text → Option ℕ) → Subject → Option (List Effect) → Tally → Tally
unfolding count_effects add_donors
tally_effects parse_amount subject none t = t
tally_effects parse_amount subject (some es) t =
    let s = count_effects parse_amount subject es (t.total, false) in
    record { total = s.0; donors = if s.1 then add_donors subject es t.donors else t.donors }

-- A round of the loop over the transactions of a page. Where `effects` is asked for does not depend
-- on what was asked before.
unfoldable pub tally_transaction :
    (Text → Option ℕ) → (Text → Option (List Effect)) → Subject → HorizonTransaction → Tally → Tally
unfolding tally_effects
tally_transaction parse_amount effects subject tx t =
    if text_eq tx.memo (format_int subject.id)
    then tally_effects parse_amount subject (effects tx.hash) t
    else t

unfoldable pub tally_page :
    (Text → Option ℕ)
    → (Text → Option (List Effect))
    → Subject
    → List HorizonTransaction
    → Tally
    → Tally
unfolding tally_transaction
tally_page parse_amount effects subject [] t = t
tally_page parse_amount effects subject (tx ∷ txs) t =
    tally_page parse_amount effects subject txs
      (tally_transaction parse_amount effects subject tx t)

-- The cursor after a page: the token of its last transaction.
unfoldable pub last_token : Text → List HorizonTransaction → Text
last_token cursor [] = cursor
last_token cursor (tx ∷ txs) = last_token tx.paging_token txs

-- The outer loop, from a page that has been read. The pages come from Horizon, whose list has no end
-- in sight: the fuel is the number of pages that are looked at.
unfoldable pub tally_pages :
    (Text → Option ℕ)
    → (Text → Option (List Effect))
    → (Text → Option (List HorizonTransaction))
    → Subject
    → ℕ
    → Text
    → List HorizonTransaction
    → Tally
    → Option Tally
unfolding tally_page last_token
tally_pages parse_amount effects transactions subject zero cursor txs t = none
tally_pages parse_amount effects transactions subject (suc fuel) cursor txs t =
    if ltb (length txs) page_limit
    then some (tally_page parse_amount effects subject txs t)
    else elim (transactions (last_token cursor txs)) [
      | none ↦ none
      | some txs' ↦
          tally_pages parse_amount effects transactions subject fuel (last_token cursor txs) txs'
            (tally_page parse_amount effects subject txs t)
    ]

abbrev first_pages :
    (Text → Option ℕ)
    → (Text → Option (List Effect))
    → (Text → Option (List HorizonTransaction))
    → Subject
    → ℕ
    → Option (List HorizonTransaction)
    → Option Tally
first_pages parse_amount effects transactions subject fuel none = none
first_pages parse_amount effects transactions subject fuel (some txs) =
    tally_pages parse_amount effects transactions subject fuel [] txs
      (record { total = 0; donors = [] })

-- Wallet.GetBalance on the pages that `fuel` allows for. Horizon answers as at the start of the
-- call, so that the call asks one question. The assets of a wallet have an issuer.
unfoldable pub get_balance : ℕ → Wallet → Text → ℕ → Asset → Exec Tally
unfolding tally_pages
get_balance fuel wallet address id asset = do
  guard wallet_error (not (is_empty address))
  client ← client_of wallet
  asset_issuer ← or_fail panic (issuer asset)
  let subject : Subject = record {
    address = address;
    id = id;
    asset_code = code asset;
    asset_issuer = asset_issuer;
  }
  ask wallet_error λ env w.
      first_pages env.parse_amount (env.effects client w) (env.transactions client w address)
        subject fuel (env.transactions client w address [])
