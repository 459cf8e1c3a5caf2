-- ===== src/Escrow/Types.antt =====
-- pkg/escrow/types: the documents of the escrow. A TotalAmount is an xdr.Int64, as a 64-bit pattern.
use tfexplorer.Base.{ℕ, Bool, List}
use tfexplorer.Base.Text.{Text}
use tfexplorer.Stellar.Asset.{Asset}

pub record EscrowDetail : Type 0 where
  pub farmer_id : ℕ
  pub total_amount : ℕ

pub record ReservationPaymentInformation : Type 0 where
  pub reservation_id : ℕ
  pub address : Text
  pub expiration : ℕ
  pub asset : Asset
  pub infos : List EscrowDetail
  pub paid : Bool
  pub released : Bool
  pub canceled : Bool

pub record CustomerEscrowInformation : Type 0 where
  pub address : Text
  pub asset : Asset
  pub details : List EscrowDetail

pub record CustomerAddress : Type 0 where
  pub customer_tid : ℕ
  pub address : Text
  pub secret : Text

-- stellar.PayoutInfo of pkg/stellar/stellar.go
pub record PayoutInfo : Type 0 where
  pub address : Text
  pub amount : ℕ
