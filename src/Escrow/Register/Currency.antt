-- ===== src/Escrow/Register/Currency.antt =====
-- Which currency a reservation is paid in.
use tfexplorer.Base.{
  ℕ, ◌≡◌, sym, ap, inl, inr, Option, none, some, List, [], ◌∷◌, arith, Bool-cases, Option-cases,
}
use tfexplorer.Base.Text.{Text, is_empty}
use tfexplorer.Base.Time.{sub_time}
use tfexplorer.Models.Workloads.{Reservation}
use tfexplorer.Stellar.Asset.{Asset, assets_of}
use tfexplorer.Escrow.Types.{CustomerEscrowInformation}
use tfexplorer.Escrow.Resources.{
  Floats, PerFarmer, calculate_reservation_cost, process_reservation_resources,
}
use tfexplorer.Escrow.Register.{
  supported_currencies, check_asset_support, choose, choose_currency, register, process_in, charge,
  process_reservation,
}
use tfexplorer.World.{Env, World, asked, done}

abbrev pub first : List Asset → Option Asset
first [] = none
first (a ∷ assets) = some a

-- With no farm to ask, the loop stops at the first currency and asks nothing.
pub choose_currency_first :
    (currency : Asset) (more : List Asset) (env : Env) (w : World)
    → choose_currency (currency ∷ more) env w ≡ (done currency, w)
unfolding choose_currency choose check_asset_support
choose_currency_first currency more env w = ground arith

register-asset :
    (r : Reservation) (costs : List (ℕ × ℕ)) (asset : Asset) (env : Env) (w : World)
    {info : CustomerEscrowInformation}
    → (register r costs asset env w).0 ≡ done info
    → info.asset ≡ asset
unfolding register
register-asset r costs asset env w h = ground arith

charge-asset :
    (fl : Floats) (r : Reservation) (rsu : PerFarmer fl) (asset : Asset) (env : Env) (w : World)
    {info : CustomerEscrowInformation}
    → (charge fl r rsu asset env w).0 ≡ done info
    → info.asset ≡ asset
unfolding charge
charge-asset fl r rsu asset env w {info} h = elim (Bool-cases (is_empty asset)) [
  | inl missing ↦ ground arith
  | inr chosen ↦
      let duration = sub_time r.data_reservation.expiration_reservation (env.now w) in
      elim (Option-cases (calculate_reservation_cost fl rsu duration)) [
        | inl unparsed ↦ ground arith
        | inr (costs, e) ↦
            register-asset r costs asset env (asked w) {info = info} (rw (chosen, e) at h)
      ]
]

process_in-asset :
    (fl : Floats) (r : Reservation) (currencies : List Asset) (env : Env) (w : World)
    {info : CustomerEscrowInformation}
    → (process_in fl r currencies env w).0 ≡ done info
    → first currencies ≡ some info.asset
unfolding process_in
process_in-asset fl r [] env w h = ground arith
process_in-asset fl r (currency ∷ more) env w {info} h =
    elim (Option-cases
      (process_reservation_resources fl (env.find_node_farm w) r.data_reservation)) [
        | inl unread ↦ ground arith
        | inr (rsu, e) ↦ ap some (
            sym (
              charge-asset fl r rsu currency env (asked w) {info = info}
                (rw (e, choose_currency_first currency more env (asked w)) at h)))
      ]

-- A reservation that is registered is to be paid in the first of the offered currencies that the
-- wallet and the escrow know, whatever addresses its farmers have.
pub registered_in_first :
    (fl : Floats) (r : Reservation) (offered : List Text) (env : Env) (w : World)
    {info : CustomerEscrowInformation}
    → (process_reservation fl r offered env w).0 ≡ done info
    → first (supported_currencies (assets_of env.network) offered) ≡ some info.asset
unfolding process_reservation
registered_in_first fl r offered env w {info} h =
    process_in-asset fl r (supported_currencies (assets_of env.network) offered) env w {info = info}
      h
