-- ===== src/Pipeline.antt =====
-- pkg/workloads/types/pipeline.go: the stages that a reservation goes through.
pub mod Laws
pub mod Stages
pub mod Quorum
use tfexplorer.Base.{
  ℕ, zero, suc, Bool, true, false, ◌&&◌, ◌||◌, not, List, [], ◌∷◌, ltb, ◌==◌, if◌then◌else◌,
}
use tfexplorer.Base.Int64
use tfexplorer.Models.Workloads.{
  NextAction, create, sign, pay, delete, deleted, SigningRequest, SigningSignature, Reservation,
  action_eq,
}
use tfexplorer.Reservation.{expired, is_successfully_deployed}

-- The closure `in` of both checks, and of the handlers that take signatures.
unfoldable pub is_signer : ℕ → List ℕ → Bool
is_signer i [] = false
is_signer i (x ∷ l) = if x == i then true else is_signer i l

-- The loop of both checks: the signatures of required signers, counted in an int64.
unfoldable pub count_signatures : List ℕ → ℕ → List SigningSignature → ℕ
unfolding is_signer
count_signatures signers count [] = count
count_signatures signers count (s ∷ signatures) =
    count_signatures signers (if not (is_signer s.tid signers) then count else Int64.add count 1)
      signatures

unfoldable pub quorum_reached : SigningRequest → List SigningSignature → Bool
unfolding count_signatures
quorum_reached request signatures =
    Int64.sle request.quorum_min (count_signatures request.signers 0 signatures)

-- Pipeline.checkProvisionSignatures
unfoldable pub check_provision_signatures : Reservation → Bool
check_provision_signatures r =
    if request.quorum_min == 0 then true else quorum_reached request r.signatures_provision
  where
    open r.data_reservation use {signing_request_provision as request}

-- Pipeline.checkDeleteSignatures
unfoldable pub check_delete_signatures : Reservation → Bool
check_delete_signatures r =
    if request.quorum_min == 0 then false else quorum_reached request r.signatures_delete
  where
    open r.data_reservation use {signing_request_delete as request}

-- The `switch` of the loop of Next, on the action.
unfoldable pub stage : NextAction → Bool → NextAction
stage create signed = sign
stage sign signed = if signed then pay else sign
stage action signed = action

-- The loop of Next on `rounds` of fuel: what it does to the action, and `modified`.
unfoldable pub advance : ℕ → NextAction → Bool → Bool → NextAction × Bool
unfolding stage
advance zero current signed modified = (current, modified)
advance (suc rounds) current signed modified =
    let rest = advance rounds (stage current signed) signed true in
    if action_eq current (stage current signed) then (stage current signed, modified) else rest

-- Create, sign, pay: the third round changes nothing.
abbrev pub rounds : ℕ
rounds = 3

-- Pipeline.Next. The clock is read twice: by Expired, and for the provisioning deadline.
unfoldable pub next : ℕ → ℕ → Reservation → Reservation × Bool
unfolding advance
next now now' r =
    if action_eq r.next_action delete || action_eq r.next_action deleted
    then (r, false)
    else if expired now r || check_delete_signatures r
    then (record r { next_action = delete }, true)
    else if ltb r.data_reservation.expiration_provisioning now' && not (is_successfully_deployed r)
    then (record r { next_action = delete }, true)
    else let (action, modified) =
        advance rounds r.next_action (check_provision_signatures r) false in
      (record r { next_action = action }, modified)
