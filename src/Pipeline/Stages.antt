-- ===== src/Pipeline/Stages.antt =====
-- The stages of a reservation as a relation, and Next as a walk along it.
use tfexplorer.Base.{
  ℕ, zero, suc, ◌≡◌, ◌≢◌, ◌⊎◌, inl, inr, refl, Bool, true, false, arith, if◌then◌else◌,
}
use tfexplorer.Models.Workloads.{
  NextAction, create, sign, pay, deploy, delete, invalid, deleted, unknown_action, Reservation,
  action_eq,
}
use tfexplorer.Pipeline.{stage, advance, rounds, next, check_provision_signatures}

-- One step of a reservation. The payment is a step of the escrow, the removal one of the nodes.
pub data Step (signed : Bool) : NextAction → NextAction → Type 0 where
  ask_signatures : Step signed create sign
  have_signatures : signed ≡ true → Step signed sign pay
  end : {a : NextAction} → a ≢ delete → a ≢ deleted → Step signed a delete

-- Any number of steps.
pub data Reaches (signed : Bool) : NextAction → NextAction → Type 0 where
  here : {a : NextAction} → Reaches signed a a
  step : {a b c : NextAction} → Step signed a b → Reaches signed b c → Reaches signed a c

stage-Step :
    (a : NextAction) (signed : Bool) → (stage a signed ≡ a) ⊎ Step signed a (stage a signed)
unfolding stage
stage-Step create signed = inr ask_signatures
stage-Step sign true = inr (have_signatures refl)
stage-Step sign false = inl refl
stage-Step pay signed = inl refl
stage-Step deploy signed = inl refl
stage-Step delete signed = inl refl
stage-Step invalid signed = inl refl
stage-Step deleted signed = inl refl
stage-Step (unknown_action n) signed = inl refl

before :
    {signed : Bool} {a b c : NextAction}
    → (b ≡ a) ⊎ Step signed a b
    → Reaches signed b c
    → Reaches signed a c
before (inl e) path = rw e at path
before (inr s) path = step s path

if-Reaches :
    {signed : Bool} {b : NextAction} (test modified : Bool) (more : NextAction × Bool)
    → Reaches signed b more.0
    → Reaches signed b (if test then (b, modified) else more).0
if-Reaches true modified more path = here
if-Reaches false modified more path = path

advance-Reaches :
    (n : ℕ) (a : NextAction) (signed modified : Bool)
    → Reaches signed a (advance n a signed modified).0
unfolding advance
advance-Reaches zero a signed modified = here
advance-Reaches (suc n) a signed modified = before (stage-Step a signed) (
    if-Reaches (action_eq a (stage a signed)) modified _
      (advance-Reaches n (stage a signed) signed true))

-- The three results of Next.
next-cases :
    (now now' : ℕ) (r : Reservation)
    → ((next now now' r).0.next_action ≡ r.next_action)
      ⊎ ((next now now' r).0.next_action ≡ delete)
        × (r.next_action ≢ delete)
        × (r.next_action ≢ deleted)
      ⊎ ((next now now' r).0.next_action
          ≡ (advance rounds r.next_action (check_provision_signatures r) false).0)
unfolding next
next-cases now now' r = ground arith

-- Next goes from the action of the reservation to the action that it returns by steps of the stage
-- relation: a new reservation asks for signatures, one with its signatures awaits payment, and one
-- that is not deleted or to be deleted may end.
pub next-Reaches :
    (now now' : ℕ) (r : Reservation)
    → Reaches (check_provision_signatures r) r.next_action (next now now' r).0.next_action
next-Reaches now now' r = elim (next-cases now now' r) [
  | inl same ↦ rw same here
  | inr (inl (ends, not_delete, not_deleted)) ↦ rw ends (step (end not_delete not_deleted) here)
  | inr (inr advances) ↦
      rw advances (advance-Reaches rounds r.next_action (check_provision_signatures r) false)
]
