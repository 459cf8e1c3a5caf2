-- ===== src/Escrow/Service/Payout.antt =====
-- What payoutFarmers and refundClients pay.
use tfexplorer.Base.{
  ℕ, ◌+◌, ◌≤◌, ◌<◌, ◌≡◌, refl, ap, inl, inr, true, ◌||◌, Option, none, some, List, [], ◌∷◌, ◌++◌,
  arith, Bool-cases, Option-cases, All,
}
use tfexplorer.Base.Int64.{add, slt, add_small, sign_bit}
use tfexplorer.Base.Text.{Text}
use tfexplorer.Stellar.Asset.{Asset, issuer}
use tfexplorer.Escrow.Types.{EscrowDetail, ReservationPaymentInformation, PayoutInfo}
use tfexplorer.Escrow.Distribution.{PayoutDistribution, asset_distribution, split_payout}
use tfexplorer.Escrow.Distribution.Laws.{max_total, split_payout_conserves, asset_whole}
use tfexplorer.World.{Env, World, Write, payout_farmers, done, asked}
use tfexplorer.Escrow.Service.{
  Collected, collect_payout, add_burn, add_foundation, nothing, send, payout, payout_farmers_of,
  refund_clients, pay_at, address_of,
}

-- A payment that is released or canceled already is neither paid out nor refunded: the two
-- handlers read it, write nothing and report success.
pub settled_untouched :
    (id : ℕ) (env : Env) (w : World) {rpi : ReservationPaymentInformation}
    → env.find_payment_info w id ≡ some rpi
    → (rpi.released || rpi.canceled) ≡ true
    → (payout_farmers_of id env w ≡ (done tt, asked w))
      × (refund_clients id env w ≡ (done tt, asked w))
unfolding payout_farmers_of refund_clients
settled_untouched id env w found settled = (ground arith, ground arith)

abbrev pub sum_infos : List PayoutInfo → ℕ
sum_infos [] = 0
sum_infos (i ∷ infos) = i.amount + sum_infos infos

abbrev pub sum_totals : List EscrowDetail → ℕ
sum_totals [] = 0
sum_totals (d ∷ details) = d.total_amount + sum_totals details

sum_infos-append :
    (xs : List PayoutInfo) (i : PayoutInfo) → sum_infos (xs ++ i ∷ []) ≡ sum_infos xs + i.amount
sum_infos-append [] i = omega arith
sum_infos-append (x ∷ xs) i = omega (arith, sum_infos-append xs i)

sum_infos-pay_at :
    (amount : ℕ) (address : Option Text) (infos : List PayoutInfo)
    → sum_infos (pay_at amount address infos) ≤ sum_infos infos + amount
sum_infos-pay_at amount none infos = omega arith
sum_infos-pay_at amount (some a) infos =
    omega (arith, sum_infos-append infos (record { address = a; amount = amount }))

abbrev gathered : Collected → ℕ
gathered c = sum_infos c.farmers + c.to_burn + c.to_foundation

split_le :
    (total : ℕ) (d : PayoutDistribution)
    → total ≤ max_total
    → d.farmer + d.burned + d.foundation ≡ 100
    → (split_payout total d).to_farmer
        + (split_payout total d).to_burn
        + (split_payout total d).to_foundation
      ≤ total
split_le total d h e = omega (arith, split_payout_conserves total d h e)

-- The loop gathers no more than the totals of the details.
gathered-collect_payout :
    (asset : Asset) (d : PayoutDistribution) (details : List EscrowDetail) (c : Collected)
    (env : Env) (w : World)
    → d.farmer + d.burned + d.foundation ≡ 100
    → All (λ detail. detail.total_amount ≤ max_total) details
    → c.to_burn + c.to_foundation + sum_totals details < sign_bit
    → gathered (collect_payout asset d details c env w).0 ≤ gathered c + sum_totals details
unfolding collect_payout
gathered-collect_payout asset d [] c env w whole small room = omega arith
gathered-collect_payout asset d (detail ∷ details) c env w whole small room =
    let s = split_payout detail.total_amount d in
    let le = split_le detail.total_amount d small.0 whole in
    let burn : add c.to_burn s.to_burn ≡ c.to_burn + s.to_burn =
      add_small c.to_burn s.to_burn (omega arith) in
    let found : add c.to_foundation s.to_foundation ≡ c.to_foundation + s.to_foundation =
      add_small c.to_foundation s.to_foundation (omega arith) in
    let c' : Collected = record c {
      to_burn = add c.to_burn s.to_burn;
      to_foundation = add c.to_foundation s.to_foundation;
    } in
    let address = address_of (env.find_farm w detail.farmer_id) asset in
    elim (Bool-cases (slt 0 s.to_farmer)) [
      | inl paid ↦ rw paid (
          omega (
            arith,
            gathered-collect_payout asset d details
                (record c' { farmers = pay_at s.to_farmer address c.farmers }) env (asked w) whole
                small.1 (omega arith),
            sum_infos-pay_at s.to_farmer address c.farmers,
          ))
      | inr unpaid ↦ rw unpaid (
          omega
            (arith, gathered-collect_payout asset d details c' env w whole small.1 (omega arith)))
    ]

burn-le :
    (asset : Asset) (c : Collected) {burnt : List PayoutInfo}
    → add_burn asset c ≡ some burnt
    → sum_infos burnt ≤ sum_infos c.farmers + c.to_burn
unfolding add_burn
burn-le asset c {burnt} h = elim (Option-cases (issuer asset)) [
  | inl missing ↦ ground arith
  | inr (i, found) ↦
      ground (arith, sum_infos-append c.farmers (record { address = i; amount = c.to_burn }))
]

final-le :
    (asset : Asset) (foundation : Text) (c : Collected) {burnt : List PayoutInfo}
    → add_burn asset c ≡ some burnt
    → sum_infos (add_foundation foundation c burnt) ≤ gathered c
unfolding add_foundation
final-le asset foundation c {burnt} h =
    let le = burn-le asset c {burnt = burnt} h in
    ground
      (arith, sum_infos-append burnt (record { address = foundation; amount = c.to_foundation }))

writes-collect_payout :
    (asset : Asset) (d : PayoutDistribution) (details : List EscrowDetail) (c : Collected)
    (env : Env) (w : World)
    → (collect_payout asset d details c env w).1.writes ≡ w.writes
unfolding collect_payout
writes-collect_payout asset d [] c env w = refl
writes-collect_payout asset d (detail ∷ details) c env w =
    elim (Bool-cases (slt 0 (split_payout detail.total_amount d).to_farmer)) [
      | inl paid ↦ rw paid (writes-collect_payout asset d details _ env (asked w))
      | inr unpaid ↦ rw unpaid (writes-collect_payout asset d details _ env w)
    ]

-- The tokens that the payouts among the writes send, however often they were sent.
abbrev pub paid_out : List Write → ℕ
paid_out [] = 0
paid_out (payout_farmers secret infos id asset ∷ writes) = sum_infos infos + paid_out writes
paid_out (_ ∷ writes) = paid_out writes

paid_out-send :
    (id : ℕ) (rpi : ReservationPaymentInformation) (c : Collected) (env : Env) (w : World)
    → paid_out (send id rpi c env w).1.writes ≤ paid_out w.writes + gathered c
unfolding send
paid_out-send id rpi c env w = elim (Option-cases (add_burn rpi.asset c)) [
  | inl none_left ↦ ground arith
  | inr (burnt, e) ↦
      rw e (ground (arith, final-le rpi.asset env.foundation_address c {burnt = burnt} e))
]

paid_out-payout :
    (id : ℕ) (rpi : ReservationPaymentInformation) (d : PayoutDistribution) (env : Env) (w : World)
    → d.farmer + d.burned + d.foundation ≡ 100
    → All (λ detail. detail.total_amount ≤ max_total) rpi.infos
    → sum_totals rpi.infos < sign_bit
    → paid_out (payout id rpi d env w).1.writes ≤ paid_out w.writes + sum_totals rpi.infos
unfolding payout
paid_out-payout id rpi d env w whole small room =
    let run = collect_payout rpi.asset d rpi.infos nothing env w in
    omega (
      arith,
      paid_out-send id rpi run.0 env run.1,
      gathered-collect_payout rpi.asset d rpi.infos nothing env w whole small (omega arith),
      ap paid_out (writes-collect_payout rpi.asset d rpi.infos nothing env w),
    )

-- If the payment's amounts are not negative, small enough to be multiplied by 10, and sum up to an
-- int64, then one run of payoutFarmers sends no more than their sum to the farmers, the issuer and
-- the foundation together, on every path, failing ones included.
pub payout_le_total :
    (id : ℕ) (env : Env) (w : World) {rpi : ReservationPaymentInformation}
    → env.find_payment_info w id ≡ some rpi
    → All (λ detail. detail.total_amount ≤ max_total) rpi.infos
    → sum_totals rpi.infos < sign_bit
    → paid_out (payout_farmers_of id env w).1.writes ≤ paid_out w.writes + sum_totals rpi.infos
unfolding payout_farmers_of
payout_le_total id env w {rpi} found small room = elim (Bool-cases (rpi.released || rpi.canceled)) [
  | inl settled ↦ ground arith
  | inr open_payment ↦ elim (Option-cases (asset_distribution rpi.asset)) [
    | inl unknown ↦ ground arith
    | inr (d, known) ↦
        rw (found, open_payment, known)
          (paid_out-payout id rpi d env (asked w) (asset_whole rpi.asset {d = d} known) small room)
  ]
]
