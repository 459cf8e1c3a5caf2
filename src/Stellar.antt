-- ===== src/Stellar.antt =====
-- pkg/stellar: the assets, the validation of addresses, and the wallet.
pub mod Asset
pub mod Validation
pub mod Wallet
