-- ===== src/Reservation/Validate/Sound.antt =====
-- What a reservation that passes `Validate` satisfies.
use tfexplorer.Base.{
  ℕ, ◌≤◌, ◌≡◌, ◌≢◌, inl, inr, refl, Bool, true, false, none, some, List, [], ◌∷◌, arith, any, ◌==◌,
  Option-cases, All,
}
use tfexplorer.Base.Text.{is_empty, byte_length}
use tfexplorer.Models.Workloads.{ReservationData, Reservation}
use tfexplorer.Reservation.Validate.{Json, conflict, validate, workload_ids}

abbrev pub occurs : ℕ → List ℕ → Bool
occurs w = any (λ i. i == w)

-- No element occurs twice.
abbrev pub IsDistinct : List ℕ → Type 0
IsDistinct [] = Unit
IsDistinct (w ∷ ws) = (occurs w ws ≡ false) × IsDistinct ws

apart :
    (w : ℕ) (ids ws : List ℕ)
    → All (λ x. occurs x (w ∷ ids) ≡ false) ws
    → (occurs w ws ≡ false) × All (λ x. occurs x ids ≡ false) ws
apart w ids [] h = (refl, tt)
apart w ids (x ∷ ws) h =
    let (later, kept) = apart w ids ws h.1 in
    (ground (arith, later, h.0), (ground (arith, h.0), kept))

conflict-none :
    (ids ws : List ℕ) → conflict ids ws ≡ none → All (λ w. occurs w ids ≡ false) ws × IsDistinct ws
unfolding conflict
conflict-none ids [] h = (tt, tt)
conflict-none ids (w ∷ ws) h =
    let (first, distinct) = conflict-none (w ∷ ids) ws (ground arith) in
    let (later, kept) = apart w ids ws first in ((ground arith, kept), (later, distinct))

-- A reservation that passes: it names a customer and carries a signature, its JSON text decodes to
-- data that DeepEqual takes for its own, its metadata have at most 1024 bytes in UTF-8, and no two
-- workloads other than networks share an ID.
pub validate_sound :
    (j : Json) (r : Reservation)
    → validate j r ≡ none
    → (r.customer_tid ≢ 0)
      × (is_empty r.customer_signature ≡ false)
      × ((decoded : ReservationData) × (j.decode r.json ≡ some decoded)
          × (j.deep_equal r.data_reservation decoded ≡ true))
      × (byte_length r.metadata ≤ 1024)
      × IsDistinct (workload_ids r.data_reservation)
unfolding validate
validate_sound j r h = elim (Option-cases (j.decode r.json)) [
  | inl fails ↦ ground arith
  | inr (d, decodes) ↦ (
    ground arith,
    ground arith,
    (d, decodes, ground arith),
    ground arith,
    (conflict-none [] (workload_ids r.data_reservation) (ground arith)).1,
  )
]
