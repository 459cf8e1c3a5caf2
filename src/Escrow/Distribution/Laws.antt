-- ===== src/Escrow/Distribution/Laws.antt =====
-- Splitting a payment loses nothing but its last digit.
use tfexplorer.Base.{
  Bool-cases, inl, inr, ◌↔◌, ◌⊎◌, List, [], ◌∷◌, true, All, ℕ, ◌+◌, ◌*◌, ◌/◌, ◌%◌, ◌<◌, ◌≤◌, ◌≡◌,
  ap, some, arith,
}
use tfexplorer.Base.Int64.{
  sign_bit, add, mul, quot, rem, add_small, mul_small, quot_small, rem_small,
}
use tfexplorer.Base.Text.{text_eq}
use tfexplorer.Stellar.Asset.{Asset}
use tfexplorer.Escrow.Distribution.{
  PayoutDistribution, Split, validate, lookup, distributions, asset_distribution, give_change,
  split_payout, multiplier,
}

-- The largest total that is multiplied without wrapping around.
abbrev pub max_total : ℕ
max_total = 922_337_203_685_477_580

parts : (b f u n : ℕ) → f + u + n ≡ 100 → b * f + b * u + b * n ≡ b * 100
parts b f u n e = omega (arith, ap (λ t. b * t) e)

abbrev base : ℕ → ℕ
base total = total * 10 / 100

base_small : (total : ℕ) → total ≤ max_total → quot (mul total multiplier) 100 ≡ base total
base_small total h =
    rw (mul_small total 10 (omega arith)) (quot_small (total * 10) 100 (omega arith))

-- The whole calculation over numbers `f`, `u` and `n` that are the shares of the three parties.
abbrev pieces : ℕ → ℕ → ℕ → Split
pieces f u n =
    give_change
      (quot (add (add (rem f multiplier) (rem u multiplier)) (rem n multiplier)) multiplier)
      (record {
        to_farmer = quot f multiplier;
        to_burn = quot u multiplier;
        to_foundation = quot n multiplier;
      })

abbrev sum_of : Split → ℕ
sum_of s = s.to_farmer + s.to_burn + s.to_foundation

change_small :
    (f u n : ℕ)
    → f + u + n < sign_bit
    → quot (add (add (rem f multiplier) (rem u multiplier)) (rem n multiplier)) multiplier
      ≡ (f % 10 + u % 10 + n % 10) / 10
change_small f u n h =
    rw (rem_small f 10 (omega arith), rem_small u 10 (omega arith), rem_small n 10 (omega arith))
      (rw (add_small (f % 10) (u % 10) (omega arith)) (
        rw (add_small (f % 10 + u % 10) (n % 10) (omega arith))
          (quot_small (f % 10 + u % 10 + n % 10) 10 (omega arith))))

sum_of-pieces :
    (k f u n : ℕ) → f + u + n < sign_bit → f + u + n ≡ k * 100 → sum_of (pieces f u n) ≡ k * 10
sum_of-pieces k f u n h e = rw (change_small f u n h) (
    rw (quot_small f 10 (omega arith), quot_small u 10 (omega arith), quot_small n 10 (omega arith))
      (unfold give_change in
        ground (
          arith,
          add_small (f / 10) ((f % 10 + u % 10 + n % 10) / 10) (omega arith),
          add_small (u / 10) ((f % 10 + u % 10 + n % 10) / 10) (omega arith),
          add_small (n / 10) ((f % 10 + u % 10 + n % 10) / 10) (omega arith),
        )))

split_payout-pieces :
    (total : ℕ) (d : PayoutDistribution)
    → total ≤ max_total
    → d.farmer + d.burned + d.foundation ≡ 100
    → split_payout total d
      ≡ pieces (base total * d.farmer) (base total * d.burned) (base total * d.foundation)
unfolding split_payout
split_payout-pieces total d h e =
    let w = parts (base total) d.farmer d.burned d.foundation e in
    rw (base_small total h) (
      rw (
        mul_small (base total) d.farmer (omega arith),
        mul_small (base total) d.burned (omega arith),
        mul_small (base total) d.foundation (omega arith),
      ))

-- For a total that is not negative and small enough to be multiplied by 10, and percentages that
-- sum up to 100, the three parts sum up to the total less its last decimal digit.
pub split_payout_conserves :
    (total : ℕ) (d : PayoutDistribution)
    → total ≤ max_total
    → d.farmer + d.burned + d.foundation ≡ 100
    → (split_payout total d).to_farmer
        + (split_payout total d).to_burn
        + (split_payout total d).to_foundation
      ≡ 10 * (total / 10)
split_payout_conserves total d h e =
    let w = parts (base total) d.farmer d.burned d.foundation e in
    rw (split_payout-pieces total d h e) (
      omega (
        arith,
        sum_of-pieces (base total) (base total * d.farmer) (base total * d.burned)
            (base total * d.foundation) (omega arith) w,
      ))

-- `validate` accepts a distribution of three uint8 percentages exactly when they sum up to 100, or
-- to 356 or 612, where the uint8 sum wraps around to 100.
pub validate_iff :
    (p : PayoutDistribution)
    → p.farmer < 256
    → p.burned < 256
    → p.foundation < 256
    → (validate p ≡ true) ↔ (
        (p.farmer + p.burned + p.foundation ≡ 100)
        ⊎ (p.farmer + p.burned + p.foundation ≡ 356)
        ⊎ (p.farmer + p.burned + p.foundation ≡ 612))
unfolding validate
validate_iff p f u n = (λ h. ground arith, λ h. ground arith)

known_whole :
    (entries : List (Asset × PayoutDistribution)) (asset : Asset) {d : PayoutDistribution}
    → All (λ e. e.1.farmer + e.1.burned + e.1.foundation ≡ 100) entries
    → lookup entries asset ≡ some d
    → d.farmer + d.burned + d.foundation ≡ 100
known_whole [] asset all h = cc
known_whole ((a, e) ∷ entries) asset {d} all h = elim (Bool-cases (text_eq a asset)) [
  | inl found ↦ ground (arith, all.0)
  | inr other ↦ known_whole entries asset {d = d} all.1 (rw other at h)
]

-- Every distribution in the table of the program is whole.
pub asset_whole :
    (asset : Asset) {d : PayoutDistribution}
    → asset_distribution asset ≡ some d
    → d.farmer + d.burned + d.foundation ≡ 100
unfolding asset_distribution
asset_whole asset {d} h = known_whole distributions asset {d = d} (omega arith) h
