-- ===== src/Provision/Container/Built.antt =====
-- What Build of provision/builders/containerBuilder.go does with the environment.
use tfexplorer.Base.{
  ◌≡◌, ◌∙◌, refl, sym, ap, false, Option, none, some, [], ◌∷◌, arith, inl, inr, Option-cases, ℕ,
  suc, All, Among, here, there,
}
use tfexplorer.Base.Text.{Text, text_eq, text_eq_refl}
use tfexplorer.Models.Workloads.{Container}
use tfexplorer.Provision.Dict.{Dict, put, get_or, get_or-put}
use tfexplorer.Provision.Secret.{SecretEnv, encrypt_secret}
use tfexplorer.Provision.Container.{encrypt_all, build_container}

-- No later entry has the key of an earlier one, as in a Go map.
abbrev pub AreDistinct : Dict Text → Type 0
AreDistinct [] = Unit
AreDistinct ((k, v) ∷ es) = All (λ e. text_eq e.0 k ≡ false) es × AreDistinct es

encrypt_all-some :
    (env : SecretEnv) (n : ℕ) (id k v : Text) (es m : Dict Text) {r : Dict Text}
    → encrypt_all env n id ((k, v) ∷ es) m ≡ some r
    → (secret : Text) × (encrypt_secret env n v id ≡ some secret)
      × (encrypt_all env (suc n) id es (put k secret m) ≡ some r)
unfolding encrypt_all
encrypt_all-some env n id k v es m h = elim (Option-cases (encrypt_secret env n v id)) [
  | inl e ↦ absurd (ground arith)
  | inr (secret, e) ↦ (secret, e, rw (e, encrypt_all) at h)
]

abbrev or_empty : Option (Dict Text) → Dict Text
or_empty none = []
or_empty (some d) = d

encrypt_all-other :
    (env : SecretEnv) (n : ℕ) (id : Text) (es m : Dict Text) {r : Dict Text} (j : Text)
    → All (λ e. text_eq e.0 j ≡ false) es
    → encrypt_all env n id es m ≡ some r
    → get_or r j [] ≡ get_or m j []
unfolding encrypt_all
encrypt_all-other env n id [] m j h e = ap (λ o. get_or (or_empty o) j []) (sym e)
encrypt_all-other env n id ((k, v) ∷ es) m j h e =
    let (secret, _, rest) = encrypt_all-some env n id k v es m e in
    encrypt_all-other env (suc n) id es (put k secret m) j h.1 rest
    ∙ get_or-put k j secret [] m
    ∙ rw h.0 refl

-- The secret that takes the place of a value.
pub record IsEncrypted (env : SecretEnv) (id v : Text) (secret : Text) : Type 0 where
  pub number : ℕ
  pub encrypted : encrypt_secret env number v id ≡ some secret

encrypt_all-IsEncrypted :
    (env : SecretEnv) (n : ℕ) (id : Text) (es m : Dict Text) {r : Dict Text} (entry : Text × Text)
    → AreDistinct es
    → Among entry es
    → encrypt_all env n id es m ≡ some r
    → IsEncrypted env id entry.1 (get_or r entry.0 [])
encrypt_all-IsEncrypted env n id [] m entry d a h = elim a [ ]
encrypt_all-IsEncrypted env n id ((k, v) ∷ es) m entry d (here _) h =
    let (secret, e, rest) = encrypt_all-some env n id k v es m h in
    let kept =
      encrypt_all-other env (suc n) id es (put k secret m) k d.0 rest
      ∙ get_or-put k k secret [] m
      ∙ rw (text_eq_refl k) refl in
    record { number = n; encrypted = e ∙ ap some (sym kept) }
encrypt_all-IsEncrypted env n id ((j, w) ∷ es) m entry d (there _ _ a) h =
    let (secret, _, rest) = encrypt_all-some env n id j w es m h in
    encrypt_all-IsEncrypted env (suc n) id es (put j secret m) entry d.1 a rest

build_container-some :
    (env : SecretEnv) (c : Container) {b : Container}
    → build_container env c ≡ some b
    → (r : Dict Text) × (encrypt_all env 0 c.node_id c.environment c.secret_environment ≡ some r)
      × (b.environment ≡ [])
      × (b.secret_environment ≡ r)
unfolding build_container
build_container-some env c h =
    elim (Option-cases (encrypt_all env 0 c.node_id c.environment c.secret_environment)) [
      | inl e ↦ absurd (ground arith)
      | inr (r, e) ↦ (r, e, ground arith, ground arith)
    ]

-- A container that is built has no plain environment. Each of its values is in the secret
-- environment under its key, encrypted for the container's node, and what was secret under another
-- key stays.
pub build_container-IsEncrypted :
    (env : SecretEnv) (c : Container) {b : Container}
    → AreDistinct c.environment
    → build_container env c ≡ some b
    → (b.environment ≡ [])
      × ((k v : Text)
          → Among (k, v) c.environment
          → IsEncrypted env c.node_id v (get_or b.secret_environment k []))
      × ((k : Text)
          → All (λ e. text_eq e.0 k ≡ false) c.environment
          → get_or b.secret_environment k [] ≡ get_or c.secret_environment k [])
build_container-IsEncrypted env c {b} d h =
    let (r, e, none_plain, same) = build_container-some env c h in
    (
      none_plain,
      rw same (λ k v a.
          encrypt_all-IsEncrypted env 0 c.node_id c.environment c.secret_environment (k, v) d a e),
      rw same (λ k other.
          encrypt_all-other env 0 c.node_id c.environment c.secret_environment k other e),
    )
