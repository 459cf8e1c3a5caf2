-- ===== src/Program/Confined.antt =====
-- Programs all of whose writes satisfy a predicate.
use tfexplorer.Base.{
  ◌≡◌, refl, sym, ap, ◌∙◌, Bool, true, false, Option, none, some, List, [], ◌∷◌, ◌++◌, All,
}
use tfexplorer.Program.{
  Log, Outcome, done, failed, Program, Store, pure, resume, ◌>>=◌, ◌>>◌, or_fail, guard, ask,
  ask_total, asked, derive_total, write, map_error,
}
use tfexplorer.Program.Quiet.{IsQuiet, >>=-pure, write-writes}

-- What a list of writes adds to another one.
pub record Adds {W : Type 0} (P : W → Type 0) (before after : List W) : Type 0 where
  pub added : List W
  pub in_front : after ≡ added ++ before
  pub each : All P added

pub record IsConfined {V W E A : Type 0} (P : W → Type 0) (m : Program V W E A) : Type 0 where
  pub adds : (env : V) (w : Log W) → Adds P w.writes (m env w).1.writes

All-weaken :
    {A : Type 0} {P Q : A → Type 0} → ((a : A) → P a → Q a) → (xs : List A) → All P xs → All Q xs
All-weaken f [] h = tt
All-weaken f (x ∷ xs) h = (f x h.0, All-weaken f xs h.1)

pub weaken :
    {V W E A : Type 0} {P Q : W → Type 0} {m : Program V W E A}
    → IsConfined P m
    → ((c : W) → P c → Q c)
    → IsConfined Q m
weaken confined f = record {
  adds = λ env w.
      let a = confined.adds env w in
      record { added = a.added; in_front = a.in_front; each = All-weaken f a.added a.each };
}

append_assoc : {A : Type 0} (xs ys zs : List A) → (xs ++ ys) ++ zs ≡ xs ++ (ys ++ zs)
append_assoc [] ys zs = refl
append_assoc (x ∷ xs) ys zs = ap (λ l. x ∷ l) (append_assoc xs ys zs)

All-append : {A : Type 0} (P : A → Type 0) (xs ys : List A) → All P xs → All P ys → All P (xs ++ ys)
All-append P [] ys h k = k
All-append P (x ∷ xs) ys h k = (h.0, All-append P xs ys h.1 k)

module _ {W : Type 0} (P : W → Type 0) where
  Adds-same : {before after : List W} → after ≡ before → Adds P before after
  Adds-same e = record { added = []; in_front = e; each = tt }

  Adds-twice :
      {first second third : List W} → Adds P first second → Adds P second third → Adds P first third
  Adds-twice {first} a b = record {
    added = b.added ++ a.added;
    in_front =
        b.in_front ∙ ap (λ l. b.added ++ l) a.in_front ∙ sym (append_assoc b.added a.added first);
    each = All-append P b.added a.added b.each a.each;
  }

  Adds-from :
      {before before' after : List W}
      → before' ≡ before
      → Adds P before' after
      → Adds P before after
  Adds-from same a = record {
    added = a.added;
    in_front = a.in_front ∙ ap (λ l. a.added ++ l) same;
    each = a.each;
  }

  module _ {V E : Type 0} where
    pub quiet-IsConfined : {A : Type 0} {m : Program V W E A} → IsQuiet m → IsConfined P m
    quiet-IsConfined quiet = record { adds = λ env w. Adds-same (quiet.same_writes env w) }

    resume-Adds :
        {A B : Type 0} (o : Outcome E A) (f : A → Program V W E B)
        → ((a : A) → IsConfined P (f a))
        → (env : V) (w : Log W) → Adds P w.writes (resume o f env w).1.writes
    resume-Adds (done a) f rest env w = (rest a).adds env w
    resume-Adds (failed e) f rest env w = Adds-same refl

    pub >>=-IsConfined :
        {A B : Type 0} {m : Program V W E A} {f : A → Program V W E B}
        → IsConfined P m
        → ((a : A) → IsConfined P (f a))
        → IsConfined P (m >>= f)
    >>=-IsConfined {m} {f} first rest = record {
      adds =
          λ env w. Adds-twice (first.adds env w) (resume-Adds (m env w).0 f rest env (m env w).1);
    }

    pub write-IsConfined : ⦃s : Store V W⦄ (e : E) (c : W) → P c → IsConfined P (write {V = V} e c)
    write-IsConfined ⦃s⦄ e c h = record {
      adds = λ env w. record {
        added = c ∷ [];
        in_front = write-writes ⦃s = s⦄ e c env w;
        each = (h, tt);
      };
    }

    -- What stands behind a guard is run only if the guard holds.
    pub guard-IsConfined :
        {A : Type 0} (e : E) (b : Bool) {m : Program V W E A}
        → (b ≡ true → IsConfined P m)
        → IsConfined P (guard e b >> m)
    guard-IsConfined e true rest = record { adds = λ env w. (rest refl).adds env w }
    guard-IsConfined e false rest = record { adds = λ env w. Adds-same refl }

    pub map_error-IsConfined :
        {F A : Type 0} (f : E → F) {m : Program V W E A}
        → IsConfined P m
        → IsConfined P (map_error f m)
    map_error-IsConfined f confined = record { adds = λ env w. confined.adds env w }

-- What a program writes when it is run in a given world satisfies a predicate, which may speak of
-- that world. A step that writes nothing gives what it found to the steps after it.
pub record IsJustified {V W E A : Type 0} (P : W → Type 0) (m : Program V W E A) (env : V)
    (w : Log W) : Type 0 where
  pub adds : Adds P w.writes (m env w).1.writes

module _ {V W E : Type 0} (P : W → Type 0) where
  resume-justified :
      {A B : Type 0} (o : Outcome E A) (f : A → Program V W E B) (env : V) (w : Log W)
      → ((a : A) → o ≡ done a → IsJustified P (f a) env w)
      → Adds P w.writes (resume o f env w).1.writes
  resume-justified (done a) f env w rest = (rest a refl).adds
  resume-justified (failed e) f env w rest = Adds-same P refl

  pub >>=-IsJustified :
      {A B : Type 0} {m : Program V W E A} {f : A → Program V W E B} {env : V} {w : Log W}
      → IsQuiet m
      → ((a : A) → (m env w).0 ≡ done a → IsJustified P (f a) env (m env w).1)
      → IsJustified P (m >>= f) env w
  >>=-IsJustified {m} {f} {env} {w} quiet rest = record {
    adds =
        Adds-from P (quiet.same_writes env w) (resume-justified (m env w).0 f env (m env w).1 rest);
  }

  pub guard-IsJustified :
      {A : Type 0} (e : E) (b : Bool) {m : Program V W E A} {env : V} {w : Log W}
      → (b ≡ true → IsJustified P m env w)
      → IsJustified P (guard e b >> m) env w
  guard-IsJustified e true rest = record { adds = (rest refl).adds }
  guard-IsJustified e false rest = record { adds = Adds-same P refl }

  pub or_fail-IsJustified :
      {A B : Type 0} (e : E) (o : Option A) {f : A → Program V W E B} {env : V} {w : Log W}
      → ((a : A) → o ≡ some a → IsJustified P (f a) env w)
      → IsJustified P (or_fail e o >>= f) env w
  or_fail-IsJustified e none rest = record { adds = Adds-same P refl }
  or_fail-IsJustified e (some a) rest = record { adds = (rest a refl).adds }

  ask-Adds :
      {A B : Type 0} (e : E) (o : Option A) (f : A → Program V W E B) (env : V) (w : Log W)
      → ((a : A) → o ≡ some a → IsJustified P (f a) env (asked w))
      → Adds P w.writes ((or_fail e o >>= f) env (asked w)).1.writes
  ask-Adds e none f env w rest = Adds-same P refl
  ask-Adds e (some a) f env w rest = Adds-from P refl (rest a refl).adds

  pub ask-IsJustified :
      {A B : Type 0} (e : E) (question : V → Log W → Option A) {f : A → Program V W E B} {env : V}
      {w : Log W}
      → ((a : A) → question env w ≡ some a → IsJustified P (f a) env (asked w))
      → IsJustified P (ask e question >>= f) env w
  ask-IsJustified e question {f} {env} {w} rest = record {
    adds = ask-Adds e (question env w) f env w rest;
  }

  pub ask_total-IsJustified :
      {A B : Type 0} (question : V → Log W → A) {f : A → Program V W E B} {env : V} {w : Log W}
      → ((a : A) → a ≡ question env w → IsJustified P (f a) env (asked w))
      → IsJustified P (ask_total question >>= f) env w
  ask_total-IsJustified question {env} {w} rest = record {
    adds = Adds-from P refl (rest (question env w) refl).adds;
  }

  pub derive_total-IsJustified :
      {A B : Type 0} (g : V → A) {f : A → Program V W E B} {env : V} {w : Log W}
      → ((a : A) → a ≡ g env → IsJustified P (f a) env w)
      → IsJustified P (derive_total g >>= f) env w
  derive_total-IsJustified g {env} rest = record { adds = (rest (g env) refl).adds }

  pub map_error-IsJustified :
      {F A : Type 0} (g : E → F) {m : Program V W E A} {env : V} {w : Log W}
      → IsJustified P m env w
      → IsJustified P (map_error g m) env w
  map_error-IsJustified g rest = record { adds = rest.adds }

  -- The answer at the end of a program writes nothing.
  pub answer-IsJustified :
      {A B : Type 0} {m : Program V W E A} {env : V} {w : Log W} (b : B)
      → IsJustified P m env w
      → IsJustified P (m >>= λ _. pure b) env w
  answer-IsJustified {m} {env} {w} b justified = record {
    adds = Adds-to (>>=-pure m (λ _. b) env w) justified.adds;
  }
    where
      Adds-to : {w' w'' : Log W} → w'' ≡ w' → Adds P w.writes w'.writes → Adds P w.writes w''.writes
      Adds-to same a = record {
        added = a.added;
        in_front = ap (λ (v : Log W). v.writes) same ∙ a.in_front;
        each = a.each;
      }

  pub confined-IsJustified :
      {A : Type 0} {m : Program V W E A} {env : V} {w : Log W}
      → IsConfined P m
      → IsJustified P m env w
  confined-IsJustified {env} {w} confined = record { adds = confined.adds env w }
