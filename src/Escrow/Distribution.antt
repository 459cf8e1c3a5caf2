-- ===== src/Escrow/Distribution.antt =====
-- pkg/escrow/payout_distribution.go, and Stellar.splitPayout of pkg/escrow/stellar.go.
pub mod Laws
use tfexplorer.Base.{
  ℕ, ◌+◌, ◌-◌, ◌%◌, ◌^◌, Bool, not, Option, none, some, List, [], ◌∷◌, ltb, ◌==◌, if◌then◌else◌,
}
use tfexplorer.Base.Int64.{add, mul, quot, rem}
use tfexplorer.Base.Text.{text_eq}
use tfexplorer.Stellar.Asset.{
  Asset, tft_mainnet, tft_testnet, tfta_mainnet, tfta_testnet, free_tft_mainnet, free_tft_testnet,
}

-- The percentages are uint8.
pub record PayoutDistribution : Type 0 where
  pub farmer : ℕ
  pub burned : ℕ
  pub foundation : ℕ

abbrev to_farmer : PayoutDistribution
to_farmer = record { farmer = 90; burned = 0; foundation = 10 }

abbrev to_issuer : PayoutDistribution
to_issuer = record { farmer = 0; burned = 100; foundation = 0 }

-- payoutDistribution.validate: `true` is a nil error. The sum is a uint8, and wraps.
unfoldable pub validate : PayoutDistribution → Bool
validate p = ((p.farmer + p.burned) % 256 + p.foundation) % 256 == 100

abbrev pub lookup : List (Asset × PayoutDistribution) → Asset → Option PayoutDistribution
lookup [] asset = none
lookup ((a, d) ∷ rest) asset = if text_eq a asset then some d else lookup rest asset

unfoldable pub distributions : List (Asset × PayoutDistribution)
distributions =
    (tft_mainnet, to_farmer)
    ∷ (tft_testnet, to_farmer)
    ∷ (tfta_mainnet, to_farmer)
    ∷ (tfta_testnet, to_farmer)
    ∷ (free_tft_mainnet, to_issuer)
    ∷ (free_tft_testnet, to_issuer)
    ∷ []

-- assetDistributions[asset]
unfoldable pub asset_distribution : Asset → Option PayoutDistribution
unfolding distributions
asset_distribution asset = lookup distributions asset

abbrev pub cost_precision : ℕ
cost_precision = 6

-- Wallet.PrecisionDigits
abbrev pub precision_digits : ℕ
precision_digits = 7

abbrev missing_precision : ℕ
missing_precision = 2 + cost_precision - precision_digits

abbrev pub multiplier : ℕ
multiplier = if ltb 0 missing_precision then 10 ^ missing_precision else 1

pub record Split : Type 0 where
  pub to_farmer : ℕ
  pub to_burn : ℕ
  pub to_foundation : ℕ

-- The change goes to the first party that gets funds anyway.
unfoldable pub give_change : ℕ → Split → Split
give_change change s =
    if not (s.to_farmer == 0)
    then record s { to_farmer = add s.to_farmer change }
    else if not (s.to_burn == 0)
    then record s { to_burn = add s.to_burn change }
    else if not (s.to_foundation == 0)
    then record s { to_foundation = add s.to_foundation change }
    else s

unfoldable pub split_payout : ℕ → PayoutDistribution → Split
unfolding give_change
split_payout total d =
    let base = quot (mul total multiplier) 100 in
    let farmer = mul base d.farmer in
    let burn = mul base d.burned in
    let foundation = mul base d.foundation in
    let change =
      add (add (rem farmer multiplier) (rem burn multiplier)) (rem foundation multiplier) in
    give_change (quot change multiplier) (record {
      to_farmer = quot farmer multiplier;
      to_burn = quot burn multiplier;
      to_foundation = quot foundation multiplier;
    })
