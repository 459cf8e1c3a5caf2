-- ===== src/Stellar/Asset.antt =====
-- pkg/stellar/asset.go, and AssetFromCode and New of pkg/stellar/stellar.go. An asset is the text
-- "<CODE>:<ISSUER>".
use tfexplorer.Base.{ℕ, Option, none, some, List, [], ◌∷◌, ◌==◌, if◌then◌else◌}
use tfexplorer.Base.Text.{Text, codes, text_eq}

abbrev pub Asset : Type 0
Asset = Text

abbrev pub tft_mainnet : Asset
tft_mainnet = codes "TFT:GBOVQKJYHXRR3DX6NOX2RRYFRCUMSADGDESTDNBDS6CDVLGVESRTAC47"

abbrev pub tft_testnet : Asset
tft_testnet = codes "TFT:GA47YZA3PKFUZMPLQ3B5F2E3CJIB57TGGU7SPCQT2WAEYKN766PWIMB3"

abbrev pub tfta_mainnet : Asset
tfta_mainnet = codes "TFTA:GBUT4GP5GJ6B3XW5PXENHQA7TXJI5GOPW3NF4W3ZIW6OOO4ISY6WNLN2"

abbrev pub tfta_testnet : Asset
tfta_testnet = codes "TFTA:GB55A4RR4G2MIORJTQA4L6FENZU7K4W7ATGY6YOT2CW47M5SZYGYKSCT"

abbrev pub free_tft_mainnet : Asset
free_tft_mainnet = codes "FreeTFT:GCBGS5TFE2BPPUVY55ZPEMWWGR6CLQ7T6P46SOFGHXEBJ34MSP6HVEUT"

abbrev pub free_tft_testnet : Asset
free_tft_testnet = codes "FreeTFT:GBLDUINEFYTF7XEE7YNWA3JQS4K2VD37YU7I2YAE7R5AHZDKQXSS2J6R"

unfoldable pub mainnet_assets : List Asset
mainnet_assets = tft_mainnet ∷ tfta_mainnet ∷ free_tft_mainnet ∷ []

unfoldable pub testnet_assets : List Asset
testnet_assets = tft_testnet ∷ tfta_testnet ∷ free_tft_testnet ∷ []

-- The assets of stellar.New for a network: those of the main network unless it is "testnet".
unfoldable pub assets_of : Text → List Asset
unfolding mainnet_assets testnet_assets
assets_of network = if text_eq network (codes "testnet") then testnet_assets else mainnet_assets

-- strings.Split(s, ":")
unfoldable pub split_colon : Text → List Text
split_colon [] = [] ∷ []
split_colon (c ∷ s) = let rest = split_colon s in if c == b':' then [] ∷ rest else push c rest
  where
    push : ℕ → List Text → List Text
    push c [] = (c ∷ []) ∷ []
    push c (part ∷ parts) = (c ∷ part) ∷ parts

abbrev first_part : List Text → Text
first_part [] = []
first_part (part ∷ parts) = part

-- Asset.Code
unfoldable pub code : Asset → Text
unfolding split_colon
code a = first_part (split_colon a)

-- Asset.Issuer: `none` is the panic on an asset without a colon.
unfoldable pub issuer : Asset → Option Text
unfolding split_colon
issuer a = elim (split_colon a) [ part ∷ parts ↦ second parts | [] ↦ none ]
  where
    second : List Text → Option Text
    second [] = none
    second (part ∷ parts) = some part

-- Wallet.AssetFromCode over the wallet's assets; `none` is ErrAssetCodeNotSupported.
unfoldable pub asset_from_code : List Asset → Text → Option Asset
unfolding code
asset_from_code [] wanted = none
asset_from_code (a ∷ assets) wanted =
    if text_eq (code a) wanted then some a else asset_from_code assets wanted
