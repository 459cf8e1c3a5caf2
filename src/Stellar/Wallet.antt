-- ===== src/Stellar/Wallet.antt =====
-- The wallet of pkg/stellar/stellar.go.
pub mod Outside
pub mod Balance
pub mod Operations
pub mod Transactions
