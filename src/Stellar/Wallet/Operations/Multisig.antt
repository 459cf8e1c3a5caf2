-- ===== src/Stellar/Wallet/Operations/Multisig.antt =====
-- What the signers of an escrow account can do together.
use tfexplorer.Base.{
  ℕ, ◌+◌, ◌*◌, ◌≡◌, ◌≤◌, ◌<◌, refl, List, [], ◌∷◌, map, length, arith, ltb, false,
}
use tfexplorer.Base.Text.{Text}
use tfexplorer.Stellar.Wallet.Outside.{
  Operation, create_account, change_trust, set_thresholds, add_signer, payment,
}
use tfexplorer.Stellar.Wallet.Operations.{setup_escrow_multisig, tx_threshold, threshold}

-- The sum of the weights that operations give to signers.
abbrev pub signer_weight : List Operation → ℕ
signer_weight [] = 0
signer_weight (add_signer a n ∷ ops) = n + signer_weight ops
signer_weight (create_account a b ∷ ops) = signer_weight ops
signer_weight (change_trust a b ∷ ops) = signer_weight ops
signer_weight (set_thresholds a b c d ∷ ops) = signer_weight ops
signer_weight (payment a b c d ∷ ops) = signer_weight ops

signer_weight-map :
    (signers : List Text) → signer_weight (map (λ s. add_signer s 1) signers) ≡ length signers
signer_weight-map [] = refl
signer_weight-map (s ∷ signers) = omega (arith, signer_weight-map signers)

tx_threshold_bounds :
    (n : ℕ)
    → 3 ≤ n
    → n < 256
    → (3 ≤ tx_threshold n) × (n < 2 * tx_threshold n) × (tx_threshold n ≤ n) × (threshold n ≡ n)
unfolding tx_threshold
tx_threshold_bounds n enough small = (ground arith, ground arith, ground arith, omega arith)

enough_signers : (n : ℕ) → 3 ≤ n → ltb n 3 ≡ false
enough_signers n enough = ground arith

-- For 3 to 255 signers, the operations set one medium and high threshold, of at least 3 signatures
-- and of more than half of the signers, the weight of all signers reaches it, and the master key
-- alone has the weight of all of them.
pub setup_escrow_multisig-threshold :
    (signers : List Text)
    → 3 ≤ length signers
    → length signers < 256
    → (t : ℕ) × (ops : List Operation) × (setup_escrow_multisig signers
        ≡ set_thresholds 0 t t (length signers) ∷ ops)
      × (3 ≤ t)
      × (length signers < 2 * t)
      × (t ≤ signer_weight ops)
      × (signer_weight ops ≡ length signers)
unfolding setup_escrow_multisig
setup_escrow_multisig-threshold signers enough small =
    let (least, majority, most, weight) = tx_threshold_bounds (length signers) enough small in
    let all = signer_weight-map signers in
    (
      tx_threshold (length signers),
      map (λ s. add_signer s 1) signers,
      rw (enough_signers (length signers) enough, weight) refl,
      least,
      majority,
      omega (arith, all, most),
      all,
    )
