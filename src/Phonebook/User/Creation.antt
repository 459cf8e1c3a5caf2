-- ===== src/Phonebook/User/Creation.antt =====
-- What UserCreate stores.
use tfexplorer.Base.{
  ℕ, ◌≡◌, ◌≢◌, refl, sym, ap, ◌∙◌, false, some, [], ◌∷◌, arith, Option-cases, Bool-cases, ◌⊎◌, inl,
  inr,
}
use tfexplorer.Base.Text.{Text, is_empty}
use tfexplorer.Models.Phonebook.{User}
use tfexplorer.Program.{Log, done, failed, fail, pure, ◌>>◌, asked}
use tfexplorer.Phonebook.Outside.{
  Env, Write, insert_user, Lookup, found, no_documents, db_error, Insertion, inserted, duplicate,
  insert_error,
}
use tfexplorer.Phonebook.User.{
  UserError, user_exists, other_error, with_name, no_user, user_create, check_name, check_insertion,
}

failed≢done : {A : Type 0} {e : UserError} {a : A} → ¬ (failed e ≡ done a)
failed≢done h = cc

check_name-cases :
    (o : Lookup User) → (o ≡ no_documents) ⊎ ((e : UserError) × (check_name o ≡ fail e))
check_name-cases (found u) = inr (user_exists, refl)
check_name-cases no_documents = inl refl
check_name-cases db_error = inr (other_error, refl)

check_insertion-done :
    (o : Insertion) (user : User) (env : Env) (w : Log Write) {u : User}
    → ((check_insertion o >> pure user) env w).0 ≡ done u
    → (u ≡ user) × (((check_insertion o >> pure user) env w).1 ≡ w)
check_insertion-done inserted user env w h = (ground arith, refl)
check_insertion-done duplicate user env w h = absurd (failed≢done h)
check_insertion-done insert_error user env w h = absurd (failed≢done h)

named_nonempty : (name : Text) → is_empty name ≡ false → name ≢ []
named_nonempty [] h e = cc
named_nonempty (c ∷ s) h e = cc

-- A user that UserCreate returns has the name, e-mail address and key that were asked for, a name
-- that is not empty and that no user was found to have, a key that could be read, and the next ID.
-- It is the one document that was written, and the write is reported to have succeeded.
pub user_create_done :
    (name email pubkey : Text) (env : Env) (w : Log Write) {u : User}
    → (user_create name email pubkey env w).0 ≡ done u
    → (key : Text) × (id : ℕ) × (u
        ≡ record no_user { id = id; name = name; email = email; pubkey = pubkey })
      × (name ≢ [])
      × (env.key_from_hex pubkey ≡ some key)
      × (env.find_user w (with_name [] name) ≡ no_documents)
      × (env.next_id (asked w) ≡ some id)
      × ((user_create name email pubkey env w).1.writes ≡ insert_user u ∷ w.writes)
unfolding user_create
user_create_done name email pubkey env w {u} h = elim (Bool-cases (is_empty name)) [
  | inl unnamed ↦ absurd (failed≢done (rw (unnamed) at h))
  | inr named ↦ elim (Option-cases (env.key_from_hex pubkey)) [
    | inl bad ↦ absurd (failed≢done (rw (named, bad) at h))
    | inr (key, is_key) ↦ elim (check_name-cases (env.find_user w (with_name [] name))) [
      | inr (e, taken) ↦ absurd (failed≢done (rw (named, is_key, taken) at h))
      | inl fresh ↦ elim (Option-cases (env.next_id (asked w))) [
        | inl no_id ↦ absurd (failed≢done (rw (named, is_key, fresh, no_id) at h))
        | inr (id, is_id) ↦
            let user : User = record no_user {
              id = id;
              name = name;
              email = email;
              pubkey = pubkey;
            } in
            let (same, kept) =
              check_insertion-done (env.insertion (stored user)) user env (asked (stored user))
                (rw (named, is_key, fresh, is_id) at h) in
            (
              key,
              id,
              same,
              named_nonempty name named,
              is_key,
              fresh,
              is_id,
              rw (named, is_key, fresh, is_id)
                  (ap (λ (v : Log Write). v.writes) kept
                    ∙ ap (λ v. insert_user v ∷ w.writes) (sym same)),
            )
      ]
    ]
  ]
]
  where
    stored : User → Log Write
    stored user = record (asked (asked w)) { writes = insert_user user ∷ w.writes }
