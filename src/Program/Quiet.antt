-- ===== src/Program/Quiet.antt =====
-- Programs that ask and decide but do not write.
use tfexplorer.Base.{◌≡◌, ◌≢◌, ◌∙◌, refl, Bool, true, false, Option, none, some, ◌∷◌, if◌then◌else◌}
use tfexplorer.Program.{
  Log, Outcome, done, failed, Program, Store, pure, fail, resume, ◌>>=◌, or_fail, guard, ask,
  ask_total, derive, derive_total, write, recover, asked,
}

pub record IsQuiet {V W E A : Type 0} (m : Program V W E A) : Type 0 where
  pub same_writes : (env : V) (w : Log W) → (m env w).1.writes ≡ w.writes

module _ {V W E : Type 0} where
  pub pure-IsQuiet : {A : Type 0} (a : A) → IsQuiet (pure {V = V} {W = W} {E = E} a)
  pure-IsQuiet a = record { same_writes = λ env w. refl }

  pub fail-IsQuiet : {A : Type 0} (e : E) → IsQuiet (fail {V = V} {W = W} {A = A} e)
  fail-IsQuiet e = record { same_writes = λ env w. refl }

  pub guard-IsQuiet : (e : E) (b : Bool) → IsQuiet (guard {V = V} {W = W} e b)
  guard-IsQuiet e true = record { same_writes = λ env w. refl }
  guard-IsQuiet e false = record { same_writes = λ env w. refl }

  pub or_fail-IsQuiet : {A : Type 0} (e : E) (o : Option A) → IsQuiet (or_fail {V = V} {W = W} e o)
  or_fail-IsQuiet e none = record { same_writes = λ env w. refl }
  or_fail-IsQuiet e (some a) = record { same_writes = λ env w. refl }

  pub ask-IsQuiet :
      {A : Type 0} (e : E) (question : V → Log W → Option A) → IsQuiet (ask e question)
  ask-IsQuiet e question = record {
    same_writes = λ env w. (or_fail-IsQuiet e (question env w)).same_writes env (asked w);
  }

  resume-same_writes :
      {A B : Type 0} (o : Outcome E A) (f : A → Program V W E B)
      → ((a : A) → IsQuiet (f a))
      → (env : V) (w : Log W) → (resume o f env w).1.writes ≡ w.writes
  resume-same_writes (done a) f quiet env w = (quiet a).same_writes env w
  resume-same_writes (failed e) f quiet env w = refl

  pub >>=-IsQuiet :
      {A B : Type 0} {m : Program V W E A} {f : A → Program V W E B}
      → IsQuiet m
      → ((a : A) → IsQuiet (f a))
      → IsQuiet (m >>= f)
  >>=-IsQuiet {m} {f} first rest = record {
    same_writes =
        λ env w. resume-same_writes (m env w).0 f rest env (m env w).1 ∙ first.same_writes env w;
  }

  pub recover-IsQuiet :
      {F A : Type 0} (a : A) {m : Program V W E A} → IsQuiet m → IsQuiet (recover {F = F} a m)
  recover-IsQuiet a quiet = record { same_writes = λ env w. quiet.same_writes env w }

  resume-written :
      {A B : Type 0} (o : Outcome E A) (f : A → Program V W E B) (env : V) (w : Log W)
      → (resume o f env w).1.writes ≢ w.writes
      → (a : A) × (o ≡ done a)
        × ((resume o f env w).1 ≡ (f a env w).1)
        × ((f a env w).1.writes ≢ w.writes)
  resume-written (done a) f env w changed = (a, refl, refl, changed)
  resume-written (failed e) f env w changed = absurd (changed refl)

  -- What a program has written whose first step writes nothing, it has written in the rest, after
  -- the success of that step.
  pub >>=-written :
      {A B : Type 0} {m : Program V W E A}
      → IsQuiet m
      → (f : A → Program V W E B) (env : V) (w : Log W) → ((m >>= f) env w).1.writes ≢ w.writes
      → (a : A) × ((m env w).0 ≡ done a)
        × (((m >>= f) env w).1 ≡ (f a env (m env w).1).1)
        × ((f a env (m env w).1).1.writes ≢ (m env w).1.writes)
  >>=-written {m} quiet f env w changed =
      resume-written (m env w).0 f env (m env w).1 (λ e. changed (e ∙ quiet.same_writes env w))

  resume-pure :
      {A B : Type 0} (o : Outcome E A) (b : A → B) (env : V) (w : Log W)
      → (resume o (λ a. pure (b a)) env w).1 ≡ w
  resume-pure (done a) b env w = refl
  resume-pure (failed e) b env w = refl

  -- The answer at the end of a program writes nothing.
  pub >>=-pure :
      {A B : Type 0} (m : Program V W E A) (b : A → B) (env : V) (w : Log W)
      → ((m >>= λ a. pure (b a)) env w).1 ≡ (m env w).1
  >>=-pure m b env w = resume-pure (m env w).0 b env (m env w).1

module _ {V W E : Type 0} where
  pub ask_total-IsQuiet :
      {A : Type 0} (question : V → Log W → A) → IsQuiet (ask_total {E = E} question)
  ask_total-IsQuiet question = record { same_writes = λ env w. refl }

  pub derive-IsQuiet : {A : Type 0} (e : E) (f : V → Option A) → IsQuiet (derive {W = W} e f)
  derive-IsQuiet e f = record {
    same_writes = λ env w. (or_fail-IsQuiet e (f env)).same_writes env w;
  }

  pub derive_total-IsQuiet : {A : Type 0} (f : V → A) → IsQuiet (derive_total {W = W} {E = E} f)
  derive_total-IsQuiet f = record { same_writes = λ env w. refl }

  pub if-IsQuiet :
      {A : Type 0} (b : Bool) {m n : Program V W E A}
      → IsQuiet m
      → IsQuiet n
      → IsQuiet (if b then m else n)
  if-IsQuiet true first second = first
  if-IsQuiet false first second = second

  pub write-writes :
      ⦃s : Store V W⦄ (e : E) (c : W) (env : V) (w : Log W)
      → (write e c env w).1.writes ≡ c ∷ w.writes
  write-writes ⦃s⦄ e c env w =
      (guard-IsQuiet e (s.write_ok env w c)).same_writes env (record w { writes = c ∷ w.writes })
