-- ===== src/Pipeline/Quorum.antt =====
-- What a quorum is: enough signatures of required signers.
use tfexplorer.Base.{
  ℕ, ◌+◌, ◌≤◌, ◌<◌, ◌≡◌, ◌↔◌, ap, ◌∙◌, inl, inr, true, arith, List, [], ◌∷◌, length, keep,
  Bool-cases, leb,
}
use tfexplorer.Base.Int64.{sign_bit, add_small, sle_small}
use tfexplorer.Models.Workloads.{SigningRequest, SigningSignature, Reservation}
use tfexplorer.Pipeline.{
  is_signer, count_signatures, quorum_reached, check_provision_signatures, check_delete_signatures,
}

-- The signatures that count for a request.
abbrev pub by_signers : List ℕ → List SigningSignature → List SigningSignature
by_signers signers signatures = keep (λ s. is_signer s.tid signers) signatures

count_signatures-length :
    (signers : List ℕ) (n : ℕ) (signatures : List SigningSignature)
    → n + length signatures < sign_bit
    → count_signatures signers n signatures ≡ n + length (by_signers signers signatures)
unfolding count_signatures
count_signatures-length signers n [] h = omega arith
count_signatures-length signers n (s ∷ sigs) h = elim (Bool-cases (is_signer s.tid signers)) [
  | inl counts ↦ rw counts (
      rw (add_small n 1 (omega arith))
        (omega (arith, count_signatures-length signers (n + 1) sigs (omega arith))))
  | inr skips ↦ rw skips (count_signatures-length signers n sigs (omega arith))
]

length-by_signers :
    (signers : List ℕ) (signatures : List SigningSignature)
    → length (by_signers signers signatures) ≤ length signatures
length-by_signers signers [] = omega arith
length-by_signers signers (s ∷ sigs) = ground (arith, length-by_signers signers sigs)

module _ (request : SigningRequest) (signatures : List SigningSignature) where
  quorum_reached_lem :
      request.quorum_min < sign_bit
      → length signatures < sign_bit
      → quorum_reached request signatures
        ≡ leb request.quorum_min (length (by_signers request.signers signatures))
  unfolding quorum_reached
  quorum_reached_lem hq hl =
      rw (count_signatures-length request.signers 0 signatures (omega arith)) (
        sle_small request.quorum_min (0 + length (by_signers request.signers signatures)) hq
          (omega (arith, length-by_signers request.signers signatures))
        ∙ ap (leb request.quorum_min) (omega arith))

-- With a quorum that is not negative and fewer than 2 ^ 63 signatures, provisioning is signed
-- exactly when at least `quorum_min` of the signatures are by required signers. A deletion needs
-- besides that the quorum is not 0.
pub check_signatures_iff :
    (r : Reservation)
    → r.data_reservation.signing_request_provision.quorum_min < sign_bit
    → r.data_reservation.signing_request_delete.quorum_min < sign_bit
    → length r.signatures_provision < sign_bit
    → length r.signatures_delete < sign_bit
    → ((check_provision_signatures r ≡ true) ↔ (
        r.data_reservation.signing_request_provision.quorum_min
        ≤ length (
            by_signers r.data_reservation.signing_request_provision.signers
              r.signatures_provision)))
      × ((check_delete_signatures r ≡ true) ↔ (
          (0 < r.data_reservation.signing_request_delete.quorum_min)
          × (r.data_reservation.signing_request_delete.quorum_min
              ≤ length (
                  by_signers r.data_reservation.signing_request_delete.signers
                    r.signatures_delete))))
unfolding check_provision_signatures check_delete_signatures
check_signatures_iff r hp hd lp ld =
    let p =
      quorum_reached_lem r.data_reservation.signing_request_provision r.signatures_provision hp
        lp in
    let d =
      quorum_reached_lem r.data_reservation.signing_request_delete r.signatures_delete hd ld in
    (
      (λ h. ground (arith, p), λ h. ground (arith, p)),
      (λ h. ground (arith, d), λ h. ground (arith, d)),
    )
