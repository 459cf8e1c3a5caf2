-- ===== src/Program.antt =====
-- Programs that ask an outside `V` and write to it, and may stop with an error. A program's state is
-- the list of the writes that it has issued, the newest first, and the number of the questions it
-- has asked. What was written before an error stays written.
pub mod Quiet
pub mod Confined
use tfexplorer.Base.{
  ℕ, suc, ◌≡◌, ◌≢◌, ◌∙◌, refl, Bool, true, false, Option, none, some, List, ◌∷◌, arith,
  if◌then◌else◌,
}

pub record Log (W : Type 0) : Type 0 where
  pub writes : List W
  pub reads : ℕ

pub data Outcome (E : Type 0) (A : Type 0) : Type 0 where
  done : A → Outcome E A
  failed : E → Outcome E A

-- A program over the outside `V` with writes in `W` and errors in `E`.
abbrev pub Program : Type 0 → Type 0 → Type 0 → Type 0 → Type 0
Program V W E A = V → Log W → Outcome E A × Log W

-- A search for one document: mongo.ErrNoDocuments is told from other errors.
pub data Lookup (A : Type 0) : Type 0 where
  found : A → Lookup A
  no_documents db_error : Lookup A

-- What was found, where any error is one.
abbrev pub document : {A : Type 0} → Lookup A → Option A
document (found a) = some a
document no_documents = none
document db_error = none

-- Whether the outside reports a write to have succeeded.
pub record Store (V : Type 0) (W : Type 0) : Type 0 where
  pub write_ok : V → Log W → W → Bool

abbrev pub pure : {V W E A : Type 0} → A → Program V W E A
pure a env w = (done a, w)

abbrev pub fail : {V W E A : Type 0} → E → Program V W E A
fail e env w = (failed e, w)

abbrev pub resume : {V W E A B : Type 0} → Outcome E A → (A → Program V W E B) → Program V W E B
resume (done a) f = f a
resume (failed e) f = fail e

infixl 5 ◌>>=◌ ◌>>◌
abbrev pub ◌>>=◌ : {V W E A B : Type 0} → Program V W E A → (A → Program V W E B) → Program V W E B
◌>>=◌ m f env w = resume (m env w).0 f env (m env w).1

abbrev pub ◌>>◌ : {V W E B : Type 0} → Program V W E (Unit {0}) → Program V W E B → Program V W E B
m >> k = m >>= λ _. k

-- One more question has been asked.
abbrev pub asked : {W : Type 0} → Log W → Log W
asked w = record w { reads = suc w.reads }

abbrev pub or_fail : {V W E A : Type 0} → E → Option A → Program V W E A
or_fail e none = fail e
or_fail e (some a) = pure a

abbrev pub guard : {V W E : Type 0} → E → Bool → Program V W E (Unit {0})
guard e true = pure tt
guard e false = fail e

-- A question that may fail, with the error to stop with.
abbrev pub ask : {V W E A : Type 0} → E → (V → Log W → Option A) → Program V W E A
ask e question env w = or_fail e (question env w) env (asked w)

abbrev pub ask_total : {V W E A : Type 0} → (V → Log W → A) → Program V W E A
ask_total question env w = (done (question env w), asked w)

-- What the outside computes from its arguments alone: a parameter of the model, not a question.
abbrev pub derive : {V W E A : Type 0} → E → (V → Option A) → Program V W E A
derive e f env w = or_fail e (f env) env w

abbrev pub derive_total : {V W E A : Type 0} → (V → A) → Program V W E A
derive_total f env w = (done (f env), w)

-- A write is issued, and then reported to have succeeded or not.
abbrev pub write : {V W E : Type 0} ⦃s : Store V W⦄ → E → W → Program V W E (Unit {0})
write ⦃s⦄ e c env w = guard e (s.write_ok env w c) env (record w { writes = c ∷ w.writes })

-- A write whose error is ignored.
abbrev pub write_anyway : {V W E : Type 0} → W → Program V W E (Unit {0})
write_anyway c env w = (done tt, record w { writes = c ∷ w.writes })

-- The error of a program, told in another way.
abbrev pub relabel : {E F A : Type 0} → (E → F) → Outcome E A → Outcome F A
relabel f (done a) = done a
relabel f (failed e) = failed (f e)

abbrev pub map_error : {V W E F A : Type 0} → (E → F) → Program V W E A → Program V W F A
map_error f m env w = (relabel f (m env w).0, (m env w).1)

-- A result in place of an error that is not looked at.
abbrev pub settle : {E F A : Type 0} → A → Outcome E A → Outcome F A
settle a (done b) = done b
settle a (failed e) = done a

abbrev pub recover : {V W E F A : Type 0} → A → Program V W E A → Program V W F A
recover a m env w = (settle a (m env w).0, (m env w).1)

abbrev pub when : {V W E : Type 0} → Bool → Program V W E (Unit {0}) → Program V W E (Unit {0})
when b m = if b then m else pure tt

-- A program that succeeds has succeeded in each of its steps.
resume-done :
    {V W E A B : Type 0} (o : Outcome E A) (f : A → Program V W E B) (env : V) (w : Log W) {b : B}
    → (resume o f env w).0 ≡ done b
    → (a : A) × (o ≡ done a) × ((f a env w).0 ≡ done b)
resume-done (done a) f env w h = (a, refl, h)
resume-done (failed e) f env w h = cc

pub >>=-done :
    {V W E A B : Type 0} (m : Program V W E A) (f : A → Program V W E B) (env : V) (w : Log W)
    {b : B}
    → ((m >>= f) env w).0 ≡ done b
    → (a : A) × ((m env w).0 ≡ done a) × ((f a env (m env w).1).0 ≡ done b)
>>=-done m f env w h = resume-done (m env w).0 f env (m env w).1 h

-- If a first step writes nothing, what a program writes it writes after that step's success.
resume-changed :
    {V W E A B : Type 0} (o : Outcome E A) (f : A → Program V W E B) (env : V) (w : Log W)
    → (resume o f env w).1.writes ≢ w.writes
    → (a : A) × (o ≡ done a) × ((f a env w).1.writes ≢ w.writes)
resume-changed (done a) f env w h = (a, refl, h)
resume-changed (failed e) f env w h = absurd (h refl)

pub >>=-changed :
    {V W E A B : Type 0} (m : Program V W E A) (f : A → Program V W E B) (env : V) (w : Log W)
    → (m env w).1.writes ≡ w.writes
    → ((m >>= f) env w).1.writes ≢ w.writes
    → (a : A) × ((m env w).0 ≡ done a) × ((f a env (m env w).1).1.writes ≢ (m env w).1.writes)
>>=-changed m f env w quiet h = resume-changed (m env w).0 f env (m env w).1 (λ e. h (e ∙ quiet))

pub guard-world :
    {V W E : Type 0} (e : E) (b : Bool) (env : V) (w : Log W) → (guard e b env w).1 ≡ w
guard-world e true env w = refl
guard-world e false env w = refl

pub guard-done :
    {V W E : Type 0} (e : E) (b : Bool) (env : V) (w : Log W) {u : Unit {0}}
    → (guard e b env w).0 ≡ done u
    → b ≡ true
guard-done e true env w h = refl
guard-done e false env w h = cc

pub or_fail-world :
    {V W E A : Type 0} (e : E) (o : Option A) (env : V) (w : Log W) → (or_fail e o env w).1 ≡ w
or_fail-world e none env w = refl
or_fail-world e (some a) env w = refl

pub or_fail-done :
    {V W E A : Type 0} (e : E) (o : Option A) (env : V) (w : Log W) {a : A}
    → (or_fail e o env w).0 ≡ done a
    → o ≡ some a
or_fail-done e none env w h = cc
or_fail-done e (some a) env w h = ground arith
