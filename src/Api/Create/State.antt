-- ===== src/Api/Create/State.antt =====
-- The reservations that create accepts.
use tfexplorer.Base.{
  ℕ, ◌≡◌, ◌≢◌, ◌↔◌, sym, ap, ◌∙◌, false, none, some, [], ◌∷◌, arith, inl, inr, Bool-cases,
  Option-cases,
}
use tfexplorer.Base.Int64.{slt}
use tfexplorer.Base.Time.{sub_time, hour}
use tfexplorer.Models.Workloads.{deploy, delete, deleted, invalid, Reservation}
use tfexplorer.Reservation.{expired, is_any}
use tfexplorer.Reservation.Validate.{Json, validate}
use tfexplorer.Pipeline.{next}
use tfexplorer.Pipeline.Laws.{is_due, next_frame, next-deploy_iff, next-delete_iff}
use tfexplorer.World.{Env, World, Outcome, asked, done}
use tfexplorer.Api.Handler.{Status}
use tfexplorer.Api.Create.{accept}

-- The reservation that create checks: without signatures and results.
abbrev pub fresh : Reservation → Reservation
fresh r = record r {
  signatures_provision = [];
  signatures_delete = [];
  signatures_farmer = [];
  results = [];
}

abbrev failed_of : Status → Outcome Status Reservation
failed_of e = Outcome.failed e

abbrev done_of : Reservation → Outcome Status Reservation
done_of r = Outcome.done r

failed≢done : {r : Reservation} {e : Status} → failed_of e ≢ done_of r
failed≢done h = cc

done≡done : {r r' : Reservation} → done_of r ≡ done_of r' → r ≡ r'
done≡done h = cc

accept-done :
    (j : Json) (r : Reservation) (env : Env) (w : World) {r' : Reservation}
    → (accept j (some r) env w).0 ≡ done r'
    → (validate j (fresh r) ≡ none)
      × (is_any r' (invalid ∷ delete ∷ []) ≡ false)
      × (now now' : ℕ) × (r' ≡ (next now now' (fresh r)).0)
unfolding accept
accept-done j r env w {r'} h = elim (Bool-cases (expired (env.now w) r)) [
  | inl past ↦ absurd (failed≢done (rw past at h))
  | inr ahead ↦
      elim (Bool-cases
        (slt (sub_time r.data_reservation.expiration_reservation (env.now (asked w))) hour)) [
          | inl short ↦ absurd (failed≢done (rw (ahead, short) at h))
          | inr enough ↦ elim (Option-cases (validate j (fresh r))) [
            | inr (e, bad) ↦ absurd (failed≢done (rw (ahead, enough, bad) at h))
            | inl good ↦
                elim (Bool-cases (is_any (next now now' (fresh r)).0 (invalid ∷ delete ∷ []))) [
                  | inl wrong ↦ absurd (failed≢done (rw (ahead, enough, good, wrong) at h))
                  | inr right ↦
                      let e : (next now now' (fresh r)).0 ≡ r' =
                        done≡done (rw (ahead, enough, good, right) at h) in
                      (
                        good,
                        ap (λ x. is_any x (invalid ∷ delete ∷ [])) (sym e) ∙ right,
                        now,
                        now',
                        sym e,
                      )
                ]
          ]
        ]
]
  where
    now : ℕ
    now = env.now (asked (asked w))

    now' : ℕ
    now' = env.now (asked (asked (asked w)))

not_delete : (r : Reservation) → is_any r (invalid ∷ delete ∷ []) ≡ false → r.next_action ≢ delete
unfolding is_any
not_delete r h e = ground arith

next-deploy :
    (now now' : ℕ) (r : Reservation)
    → (next now now' r).0.next_action ≢ delete
    → ((next now now' r).0.next_action ≡ deploy) ↔ (r.next_action ≡ deploy)
next-deploy now now' r kept = (
  λ h. ((next-deploy_iff now now' r).0 h).0,
  λ h. elim (Bool-cases (is_due now now' r)) [
    | inl due ↦
        absurd
          (kept ((next-delete_iff now now' r).1 (inr ((λ e. deploy≢deleted (sym h ∙ e)), due))))
    | inr rest ↦ (next-deploy_iff now now' r).1 (h, rest)
  ],
)
  where
    deploy≢deleted : deploy ≢ deleted
    deploy≢deleted e = cc

-- A reservation that create accepts passed `Validate` without the signatures and results that the
-- client sent along, is what the client sent but for these and its action, is not to be deleted,
-- and is in the deploy state exactly when the client sent it in that state, before any payment.
pub accept_deploy :
    (j : Json) (r : Reservation) (env : Env) (w : World) {r' : Reservation}
    → (accept j (some r) env w).0 ≡ done r'
    → (validate j (fresh r) ≡ none)
      × (r' ≡ record (fresh r) { next_action = r'.next_action })
      × (r'.next_action ≢ delete)
      × ((r'.next_action ≡ deploy) ↔ (r.next_action ≡ deploy))
accept_deploy j r env w {r'} h =
    let (good, kept, now, now', e) = accept-done j r env w {r' = r'} h in
    (
      good,
      e
          ∙ next_frame now now' (fresh r)
          ∙ ap (λ x. record (fresh r) { next_action = x.next_action }) (sym e),
      not_delete r' kept,
      rw e (next-deploy now now' (fresh r) (rw e at (not_delete r' kept))),
    )
