-- ===== src/Escrow/Register/Stored.antt =====
-- What the registration of a reservation stores.
use tfexplorer.Base.{ℕ, ◌≡◌, ◌≢◌, inl, inr, false, List, [], ◌∷◌, arith, Bool-cases, Option-cases}
use tfexplorer.Base.Text.{Text, is_empty}
use tfexplorer.Base.Time.{sub_time}
use tfexplorer.Models.Workloads.{Reservation}
use tfexplorer.Stellar.Asset.{Asset, assets_of}
use tfexplorer.Escrow.Types.{ReservationPaymentInformation, CustomerEscrowInformation}
use tfexplorer.Escrow.Resources.{
  Floats, PerFarmer, calculate_reservation_cost, process_reservation_resources,
}
use tfexplorer.Escrow.Service.{EscrowError, other_error}
use tfexplorer.Escrow.Register.{
  supported_currencies, create_or_load_account, details_of, register, charge, process_in,
  process_reservation,
}
use tfexplorer.Escrow.Register.Currency.{choose_currency_first}
use tfexplorer.World.{
  env_store, Env, World, Write, create_payment_info, Outcome, Exec, write, pure, >>=-done, done,
  asked, ◌>>◌,
}

-- The payment of a reservation, unpaid, with what the customer was told.
abbrev pub payment_of : Reservation → CustomerEscrowInformation → ReservationPaymentInformation
payment_of r info = record {
  reservation_id = r.id;
  address = info.address;
  expiration = r.data_reservation.expiration_provisioning;
  asset = info.asset;
  infos = info.details;
  paid = false;
  released = false;
  canceled = false;
}

-- The last write is that payment.
abbrev pub IsStored : Reservation → CustomerEscrowInformation → World → Type 0
IsStored r info w = (ws : List Write) × (w.writes ≡ create_payment_info (payment_of r info) ∷ ws)

abbrev failed_of : EscrowError → Outcome EscrowError CustomerEscrowInformation
failed_of e = Outcome.failed e

abbrev done_of : CustomerEscrowInformation → Outcome EscrowError CustomerEscrowInformation
done_of info = Outcome.done info

failed≢done : {e : EscrowError} {info : CustomerEscrowInformation} → failed_of e ≢ done_of info
failed≢done h = cc

-- From the account on.
abbrev conclude :
    Reservation → List (ℕ × ℕ) → Asset → Text → Exec EscrowError CustomerEscrowInformation
conclude r costs asset address = do
  write other_error (
      create_payment_info
        (payment_of r (record { address = address; asset = asset; details = details_of costs })))
  pure (record { address = address; asset = asset; details = details_of costs })

conclude-IsStored :
    (r : Reservation) (costs : List (ℕ × ℕ)) (asset : Asset) (address : Text) (env : Env)
    (w : World) {info : CustomerEscrowInformation}
    → (conclude r costs asset address env w).0 ≡ done info
    → (conclude r costs asset address env w).1.writes
      ≡ create_payment_info (payment_of r info) ∷ w.writes
conclude-IsStored r costs asset address env w {info} h = ground arith

register-IsStored :
    (r : Reservation) (costs : List (ℕ × ℕ)) (asset : Asset) (env : Env) (w : World)
    {info : CustomerEscrowInformation}
    → (register r costs asset env w).0 ≡ done info
    → IsStored r info (register r costs asset env w).1
unfolding register
register-IsStored r costs asset env w {info} h =
    let account = create_or_load_account r.customer_tid in
    let (address, e, h₁) = >>=-done account (conclude r costs asset) env w h in
    (
      (account env w).1.writes,
      rw e (conclude-IsStored r costs asset address env (account env w).1 h₁),
    )

charge-IsStored :
    (fl : Floats) (r : Reservation) (rsu : PerFarmer fl) (asset : Asset) (env : Env) (w : World)
    {info : CustomerEscrowInformation}
    → (charge fl r rsu asset env w).0 ≡ done info
    → IsStored r info (charge fl r rsu asset env w).1
unfolding charge
charge-IsStored fl r rsu asset env w {info} h = elim (Bool-cases (is_empty asset)) [
  | inl missing ↦ absurd (failed≢done (rw missing at h))
  | inr chosen ↦
      let duration = sub_time r.data_reservation.expiration_reservation (env.now w) in
      elim (Option-cases (calculate_reservation_cost fl rsu duration)) [
        | inl unparsed ↦ absurd (failed≢done (rw (chosen, unparsed) at h))
        | inr (costs, e) ↦
            rw (chosen, e)
              (register-IsStored r costs asset env (asked w) {info = info} (rw (chosen, e) at h))
      ]
]

process_in-IsStored :
    (fl : Floats) (r : Reservation) (currencies : List Asset) (env : Env) (w : World)
    {info : CustomerEscrowInformation}
    → (process_in fl r currencies env w).0 ≡ done info
    → IsStored r info (process_in fl r currencies env w).1
unfolding process_in
process_in-IsStored fl r [] env w h = absurd (failed≢done h)
process_in-IsStored fl r (currency ∷ more) env w {info} h =
    elim (Option-cases
      (process_reservation_resources fl (env.find_node_farm w) r.data_reservation)) [
        | inl unread ↦ absurd (failed≢done (rw unread at h))
        | inr (rsu, e) ↦
            let first = choose_currency_first currency more env (asked w) in
            rw (e, first)
              (charge-IsStored fl r rsu currency env (asked w) {info = info} (rw (e, first) at h))
      ]

-- A reservation that is registered has last of all its payment stored: unpaid, for the reservation,
-- and with the address, the asset and the amounts that the customer is told.
pub process_reservation-IsStored :
    (fl : Floats) (r : Reservation) (offered : List Text) (env : Env) (w : World)
    {info : CustomerEscrowInformation}
    → (process_reservation fl r offered env w).0 ≡ done info
    → IsStored r info (process_reservation fl r offered env w).1
unfolding process_reservation
process_reservation-IsStored fl r offered env w {info} h =
    process_in-IsStored fl r (supported_currencies (assets_of env.network) offered) env w
      {info = info} h
