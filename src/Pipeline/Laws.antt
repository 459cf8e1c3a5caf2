-- ===== src/Pipeline/Laws.antt =====
-- What the pipeline does to a reservation.
use tfexplorer.Base.{
  ℕ, suc, ◌+◌, ◌≡◌, ◌↔◌, ◌⊎◌, ◌≢◌, ◌&&◌, ◌||◌, refl, Bool, true, false, not, arith, ltb, ==-refl,
}
use tfexplorer.Models.Workloads.{
  NextAction, create, sign, pay, deploy, delete, invalid, deleted, unknown_action, Reservation,
  action_eq,
}
use tfexplorer.Reservation.{expired, is_successfully_deployed}
use tfexplorer.Reservation.Workloads.Filter.{length-workloads}
use tfexplorer.Pipeline.{
  stage, advance, rounds, next, check_provision_signatures, check_delete_signatures,
}

pub action_eq_refl : (a : NextAction) → action_eq a a ≡ true
action_eq_refl (unknown_action n) = ==-refl n
action_eq_refl create = refl
action_eq_refl sign = refl
action_eq_refl pay = refl
action_eq_refl deploy = refl
action_eq_refl delete = refl
action_eq_refl invalid = refl
action_eq_refl deleted = refl

advance_more :
    (extra : ℕ) (current : NextAction) (signed modified : Bool)
    → advance (suc (suc (suc extra))) current signed modified
      ≡ advance rounds current signed modified
unfolding advance
advance_more extra create signed modified = ground arith
advance_more extra (unknown_action n) signed modified = rw (==-refl n)
advance_more extra _ signed modified = ground arith

stage-advance :
    (current : NextAction) (signed modified : Bool)
    → stage (advance rounds current signed modified).0 signed
      ≡ (advance rounds current signed modified).0
unfolding advance
stage-advance create signed modified = ground arith
stage-advance (unknown_action n) signed modified = rw (==-refl n)
stage-advance _ signed modified = ground arith

-- More fuel than three rounds changes nothing, and the loop ends by its test: what it returns is a
-- stage that the `switch` leaves alone.
pub advance_ends :
    (extra : ℕ) (current : NextAction) (signed modified : Bool)
    → (advance (rounds + extra) current signed modified ≡ advance rounds current signed modified)
      × (stage (advance rounds current signed modified).0 signed
          ≡ (advance rounds current signed modified).0)
advance_ends extra current signed modified =
    let more : rounds + extra ≡ suc (suc (suc extra)) = omega arith in
    (rw more (advance_more extra current signed modified), stage-advance current signed modified)

-- Once the loop has ended, another run of it changes nothing.
advance_again :
    (current : NextAction) (signed : Bool)
    → advance rounds (advance rounds current signed false).0 signed false
      ≡ ((advance rounds current signed false).0, false)
unfolding advance
advance_again create signed = ground arith
advance_again (unknown_action n) signed = rw (==-refl n, ==-refl n)
advance_again _ signed = ground arith

-- `Next` changes nothing of a reservation but its action.
pub next_frame :
    (now now' : ℕ) (r : Reservation)
    → (next now now' r).0 ≡ record r { next_action = (next now now' r).0.next_action }
unfolding next
next_frame now now' r = ground arith

-- The flag that `Next` returns is true exactly when the action changed.
pub next_flag :
    (now now' : ℕ) (r : Reservation)
    → (next now now' r).1 ≡ not (action_eq r.next_action (next now now' r).0.next_action)
unfolding next
next_flag now now' r = ground arith

-- Deletion is due: the reservation has expired, its deletion is signed by a quorum, or its
-- provisioning deadline has passed with a workload not deployed.
abbrev pub is_due : ℕ → ℕ → Reservation → Bool
is_due now now' r =
    expired now r
    || check_delete_signatures r
    || ltb r.data_reservation.expiration_provisioning now' && not (is_successfully_deployed r)

-- `Next` marks a reservation for deletion exactly when it is marked already, or when it is not yet
-- deleted and its deletion is due.
pub next-delete_iff :
    (now now' : ℕ) (r : Reservation)
    → ((next now now' r).0.next_action ≡ delete)
      ↔ ((r.next_action ≡ delete) ⊎ (r.next_action ≢ deleted) × (is_due now now' r ≡ true))
unfolding next
next-delete_iff now now' r = (λ h. ground arith, λ h. ground arith)

-- `Next` returns a reservation in the deploy state exactly when it was there before and its
-- deletion is not due: no other state leads there.
pub next-deploy_iff :
    (now now' : ℕ) (r : Reservation)
    → ((next now now' r).0.next_action ≡ deploy)
      ↔ ((r.next_action ≡ deploy) × (is_due now now' r ≡ false))
unfolding next
next-deploy_iff now now' r = (λ h. (ground arith, ground arith), λ h. ground arith)

-- `Next` returns a reservation that awaits payment exactly when its deletion is not due and it
-- awaited payment before, or was created or being signed and the required signatures are there.
pub next-pay_iff :
    (now now' : ℕ) (r : Reservation)
    → ((next now now' r).0.next_action ≡ pay) ↔ (
        (is_due now now' r ≡ false)
        × ((r.next_action ≡ pay)
            ⊎ ((r.next_action ≡ create) ⊎ (r.next_action ≡ sign))
              × (check_provision_signatures r ≡ true)))
unfolding next
next-pay_iff now now' r = (λ h. (ground arith, ground arith), λ h. ground arith)

-- The other fields of a reservation decide what `Next` reads of it, not its action.
module _ (now now' : ℕ) (r : Reservation) (action : NextAction) where
  expired-action : expired now (record r { next_action = action }) ≡ expired now r
  unfolding expired
  expired-action = refl

  deleted-action :
      check_delete_signatures (record r { next_action = action }) ≡ check_delete_signatures r
  unfolding check_delete_signatures
  deleted-action = refl

  provision-action :
      check_provision_signatures (record r { next_action = action }) ≡ check_provision_signatures r
  unfolding check_provision_signatures
  provision-action = refl

  pub deployed-action :
      is_successfully_deployed (record r { next_action = action }) ≡ is_successfully_deployed r
  unfolding is_successfully_deployed
  deployed-action = cc (length-workloads r, length-workloads (record r { next_action = action }))

-- At the same times `Next` settles a reservation: applied again it changes nothing, and says so.
pub next_again :
    (now now' : ℕ) (r : Reservation)
    → next now now' (next now now' r).0 ≡ ((next now now' r).0, false)
unfolding next
next_again now now' r =
    let a : NextAction = (advance rounds r.next_action (check_provision_signatures r) false).0 in
    ground (
      arith,
      expired-action now now' r a,
      deleted-action now now' r a,
      provision-action now now' r a,
      deployed-action now now' r a,
      advance_again r.next_action (check_provision_signatures r),
    )
