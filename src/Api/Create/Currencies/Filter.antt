-- ===== src/Api/Create/Currencies/Filter.antt =====
-- What is left of the offered currencies.
use mathlib.Core.List.{append_assoc}
use tfexplorer.Base.{
  ℕ, zero, suc, ◌+◌, ◌-◌, ◌≤◌, ◌≡◌, refl, ap, ◌∙◌, true, false, none, some, List, [], ◌∷◌, ◌++◌,
  arith, length, length-append, All, le→leb, leb,
}
use tfexplorer.Base.Text.{Text, text_eq, text_eq_refl}
use tfexplorer.Api.Create.Currencies.Slices.{
  drop-append, take-length, take_all, drop-length, drop-suc-length, drop-suc,
}
use tfexplorer.Api.Create.Currencies.{
  free_tft, take, drop, close_gap, is_free_at, remove_free, slice, offered_currencies,
}

-- No currency of the list is FreeTFT.
abbrev pub IsPaid : List Text → Type 0
IsPaid cs = All (λ c. text_eq c free_tft ≡ false) cs

IsPaid-append : (xs ys : List Text) → IsPaid xs → IsPaid ys → IsPaid (xs ++ ys)
IsPaid-append [] ys h k = k
IsPaid-append (x ∷ xs) ys h k = (h.0, IsPaid-append xs ys h.1 k)

IsPaid-drop_all : (n : ℕ) (xs : List Text) → IsPaid xs → IsPaid (drop n xs)
IsPaid-drop_all zero xs h = h
IsPaid-drop_all (suc n) [] h = tt
IsPaid-drop_all (suc n) (x ∷ xs) h = IsPaid-drop_all n xs h.1

IsPaid-drop : (i : ℕ) (xs : List Text) → IsPaid (drop i xs) → IsPaid (drop (suc i) xs)
IsPaid-drop zero [] h = tt
IsPaid-drop zero (x ∷ xs) h = h.1
IsPaid-drop (suc i) [] h = tt
IsPaid-drop (suc i) (x ∷ xs) h = IsPaid-drop i xs h

is_free_at-IsPaid : (i : ℕ) (xs : List Text) → IsPaid (drop i xs) → is_free_at i xs ≡ false
is_free_at-IsPaid zero [] h = refl
is_free_at-IsPaid zero (x ∷ xs) h = h.0
is_free_at-IsPaid (suc i) [] h = refl
is_free_at-IsPaid (suc i) (x ∷ xs) h = is_free_at-IsPaid i xs h

module _ (rounds i : ℕ) (array : List Text) (len : ℕ) where
  remove_free_kept :
      is_free_at i array ≡ false
      → remove_free (suc rounds) i array len ≡ remove_free rounds (suc i) array len
  unfolding remove_free
  remove_free_kept h = rw h

  remove_free_removed :
      is_free_at i array ≡ true
      → suc i ≤ len
      → remove_free (suc rounds) i array len
        ≡ remove_free rounds (suc i) (close_gap i len array) (len - 1)
  unfolding remove_free
  remove_free_removed h room = rw (h, le→leb (suc i) len room)

  remove_free_panic :
      is_free_at i array ≡ true
      → leb (suc i) len ≡ false
      → remove_free (suc rounds) i array len ≡ none
  unfolding remove_free
  remove_free_panic h room = rw (h, room)

-- Where no FreeTFT is ahead, the loop changes nothing.
remove_free-IsPaid :
    (rounds i : ℕ) (array : List Text) (len : ℕ)
    → IsPaid (drop i array)
    → remove_free rounds i array len ≡ some (array, len)
remove_free-IsPaid zero i array len h = unfold remove_free in refl
remove_free-IsPaid (suc rounds) i array len h =
    remove_free_kept rounds i array len (is_free_at-IsPaid i array h)
    ∙ remove_free-IsPaid rounds (suc i) array len (IsPaid-drop i array h)

is_free_at-drop :
    (i : ℕ) (xs : List Text) {c : Text} {cs : List Text}
    → drop i xs ≡ c ∷ cs
    → is_free_at i xs ≡ text_eq c free_tft
is_free_at-drop i xs h = ground arith

-- The loop passes over a stretch without FreeTFT.
remove_free-skip :
    (before : List Text) (rounds i : ℕ) (array after : List Text) (len : ℕ)
    → IsPaid before
    → drop i array ≡ before ++ after
    → remove_free (length before + rounds) i array len
      ≡ remove_free rounds (i + length before) array len
remove_free-skip [] rounds i array after len paid h =
    let e : 0 + rounds ≡ rounds = omega arith in let e' : i + 0 ≡ i = omega arith in rw (e, e')
remove_free-skip (c ∷ before) rounds i array after len paid h =
    let e : suc (length before) + rounds ≡ suc (length before + rounds) = omega arith in
    let e' : i + suc (length before) ≡ suc i + length before = omega arith in
    rw (e, e')
      (remove_free_kept (length before + rounds) i array len (is_free_at-drop i array h ∙ paid.0)
        ∙ remove_free-skip before rounds (suc i) array after len paid.1
            (drop-suc i array {c = c} {cs = before ++ after} h))

-- The array when the element behind `before` is taken off: the rest moves up by one place, and the
-- last element stays where it was.
close_gap-append :
    (before after : List Text) (c : Text)
    → close_gap (length before) (length (before ++ c ∷ after)) (before ++ c ∷ after)
      ≡ before ++ after ++ drop (length after) (c ∷ after)
unfolding close_gap
close_gap-append before after c =
    let all : length (before ++ c ∷ after) ≡ length before + suc (length after) =
      length-append before (c ∷ after) in
    let rest : length (before ++ c ∷ after) - suc (length before) ≡ length after = omega arith in
    let last : length (before ++ c ∷ after) - 1 ≡ length before + length after = omega arith in
    rw (rest, last, take-length before (c ∷ after), drop-suc-length before after c)
      (rw (take_all after, drop-append before (c ∷ after) (length after)))

IsPaid-tail :
    (after : List Text) (c : Text)
    → IsPaid after
    → IsPaid (drop 1 (after ++ drop (length after) (c ∷ after)))
IsPaid-tail [] c h = tt
IsPaid-tail (a ∷ after) c h =
    IsPaid-append after (drop (length after) (a ∷ after)) h.1
      (IsPaid-drop_all (length after) (a ∷ after) h)

abbrev array_of : List Text → List Text → List Text
array_of before after = before ++ free_tft ∷ after

-- The loop up to a FreeTFT behind `before`.
remove_free-reach :
    (before after : List Text) (rounds len : ℕ)
    → IsPaid before
    → remove_free (length before + rounds) 0 (array_of before after) len
      ≡ remove_free rounds (length before) (array_of before after) len
remove_free-reach before after rounds len paid =
    let e : 0 + length before ≡ length before = omega arith in
    remove_free-skip before rounds 0 (array_of before after) (free_tft ∷ after) len paid refl
    ∙ (rw e refl)

free_found : (before after : List Text) → is_free_at (length before) (array_of before after) ≡ true
free_found before after =
    is_free_at-drop (length before) (array_of before after) (drop-length before (free_tft ∷ after))
    ∙ text_eq_refl free_tft

module _ (before after : List Text) where
  whole : ℕ
  whole = length (array_of before after)

  whole_lem : whole ≡ length before + suc (length after)
  unfolding whole
  whole_lem = length-append before (free_tft ∷ after)

  gap : List Text
  gap = close_gap (length before) whole (array_of before after)

  gap_lem : gap ≡ (before ++ after) ++ drop (length after) (free_tft ∷ after)
  unfolding gap whole
  gap_lem = close_gap-append before after free_tft

  -- The loop through its first removal.
  remove_free-gap :
      IsPaid before
      → remove_free whole 0 (array_of before after) whole
        ≡ remove_free (length after) (suc (length before)) gap (whole - 1)
  unfolding gap
  remove_free-gap paid =
      ap (λ n. remove_free n 0 (array_of before after) whole) whole_lem
      ∙ remove_free-reach before after (suc (length after)) whole paid
      ∙ remove_free_removed (length after) (length before) (array_of before after) whole
          (free_found before after) (omega (arith, whole_lem))

  gap-IsPaid : IsPaid after → IsPaid (drop (suc (length before)) gap)
  gap-IsPaid paid =
      let e : suc (length before) ≡ length before + 1 = omega arith in
      rw (e, gap_lem, append_assoc)
        (rw (drop-append before (after ++ drop (length after) (free_tft ∷ after)) 1)
          (IsPaid-tail after free_tft paid))

  take-gap : take (whole - 1) gap ≡ before ++ after
  take-gap =
      let e : whole - 1 ≡ length (before ++ after) =
        omega (arith, whole_lem, length-append before after) in
      rw (e, gap_lem) (take-length (before ++ after) _)

-- If some nodes must be paid for and FreeTFT is offered once, it alone is taken off the offered
-- currencies, and the others keep their order.
pub offered_currencies_once :
    (before after : List Text)
    → IsPaid before
    → IsPaid after
    → offered_currencies true (before ++ free_tft ∷ after) ≡ some (before ++ after)
unfolding offered_currencies whole
offered_currencies_once before after hb ha =
    ap slice (
      remove_free-gap before after hb
      ∙ remove_free-IsPaid (length after) (suc (length before)) (gap before after) _
          (gap-IsPaid before after ha))
    ∙ ap some (take-gap before after)

too_long :
    (before : List Text)
    → leb (suc (suc (length before))) (whole before (free_tft ∷ []) - 1) ≡ false
too_long before = ground (arith, whole_lem before (free_tft ∷ []))

-- If some nodes must be paid for and the offered currencies end in FreeTFT twice, the first two
-- times that it is offered, the loop panics: the second removal slices past the shortened length.
pub offered_currencies_panic :
    (before : List Text)
    → IsPaid before
    → offered_currencies true (before ++ free_tft ∷ free_tft ∷ []) ≡ none
unfolding offered_currencies whole
offered_currencies_panic before hb =
    let after : List Text = free_tft ∷ [] in
    let found : is_free_at (suc (length before)) (gap before after) ≡ true =
      is_free_at-drop (suc (length before)) (gap before after) {c = free_tft} {cs = []}
        (rw (gap_lem before after, append_assoc) (drop-suc-length before (free_tft ∷ []) free_tft))
      ∙ text_eq_refl free_tft in
    ap slice (
      remove_free-gap before after hb
      ∙ remove_free_panic 0 (suc (length before)) (gap before after) _ found (too_long before))
