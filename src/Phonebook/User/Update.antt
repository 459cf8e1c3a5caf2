-- ===== src/Phonebook/User/Update.antt =====
-- Who can change a user, and what the signature of a change covers.
use tfexplorer.Base.{
  ℕ, ◌≡◌, ◌≢◌, ◌⊎◌, ◌||◌, inl, inr, refl, sym, ap, ◌∙◌, true, some, [], ◌∷◌, arith, Option-cases,
}
use tfexplorer.Base.Text.{Text, is_empty, text_eq, text_eq→≡}
use tfexplorer.Models.Phonebook.{User}
use tfexplorer.Program.{Log, done, asked, write, ◌>>◌}
use tfexplorer.Program.Quiet.{
  IsQuiet, pure-IsQuiet, fail-IsQuiet, guard-IsQuiet, derive-IsQuiet, derive_total-IsQuiet,
  if-IsQuiet, >>=-IsQuiet, >>=-written, write-writes,
}
use tfexplorer.Phonebook.Outside.{
  Env, Exec, Write, user_store, update_user, Lookup, found, no_documents, db_error,
}
use tfexplorer.Phonebook.User.{
  UserError, bad_user_update, other_error, encode, with_id, no_user, current_user, check_pubkey,
  check_update, with_update, user_update,
}

-- The user that an update starts from.
pub Starts : Lookup User → User → Type 0
Starts o u = (o ≡ found u) ⊎ ((o ≡ db_error) × (u ≡ no_user))

-- The user that is found for an ID has a key, for which the signature of an update is valid, and
-- the update does not change the name.
pub record IsOwnUpdate (env : Env) (w : Log Write) (id : ℕ) (signature : Text) (update : User)
    (current : User) : Type 0 where
  pub key : Text
  pub starts : Starts (env.find_user w (with_id [] id)) current
  pub has_key : env.key_from_hex current.pubkey ≡ some key
  pub signed : env.verify key (encode (record update { id = id })) signature ≡ true
  pub given_name : (update.name ≡ []) ⊎ (update.name ≡ current.name)

current_user-Starts :
    (o : Lookup User) (env : Env) (w : Log Write) {u : User}
    → (current_user o env w).0 ≡ done u
    → Starts o u
unfolding Starts
current_user-Starts (found u) env w h = ground arith
current_user-Starts no_documents env w h = cc
current_user-Starts db_error env w h = ground arith

current_user-IsQuiet : (o : Lookup User) → IsQuiet (current_user o)
current_user-IsQuiet (found u) = pure-IsQuiet u
current_user-IsQuiet no_documents = fail-IsQuiet _
current_user-IsQuiet db_error = pure-IsQuiet no_user

check_pubkey-IsQuiet : (pubkey : Text) → IsQuiet (check_pubkey pubkey)
check_pubkey-IsQuiet pubkey =
    if-IsQuiet (is_empty pubkey) (pure-IsQuiet tt)
      (>>=-IsQuiet (derive-IsQuiet _ _) λ key. pure-IsQuiet tt)

check_update-IsQuiet :
    (id : ℕ) (signature : Text) (update current : User)
    → IsQuiet (check_update id signature update current)
unfolding check_update
check_update-IsQuiet id signature update current =
    >>=-IsQuiet (derive-IsQuiet other_error (λ env. env.key_from_hex current.pubkey)) λ key.
      >>=-IsQuiet
        (derive_total-IsQuiet
          (λ env. env.verify key (encode (record update { id = id })) signature))
        λ valid. >>=-IsQuiet (guard-IsQuiet bad_user_update valid) λ _.
          >>=-IsQuiet (check_pubkey-IsQuiet update.pubkey) λ _.
            guard-IsQuiet bad_user_update (is_empty update.name || text_eq current.name update.name)

given_name : (new old : Text) → is_empty new || text_eq old new ≡ true → (new ≡ []) ⊎ (new ≡ old)
given_name [] old h = inl refl
given_name (c ∷ s) old h = inr (sym (text_eq→≡ old (c ∷ s) h))

check_update-done :
    (id : ℕ) (signature : Text) (update current : User) (env : Env) (w : Log Write)
    → (check_update id signature update current env w).0 ≡ done tt
    → (key : Text) × (env.key_from_hex current.pubkey ≡ some key)
      × (env.verify key (encode (record update { id = id })) signature ≡ true)
      × (is_empty update.name || text_eq current.name update.name ≡ true)
unfolding check_update
check_update-done id signature update current env w h =
    elim (Option-cases (env.key_from_hex current.pubkey)) [
      | inl bad ↦ absurd (ground arith)
      | inr (key, is_key) ↦ (key, is_key, ground arith, ground arith)
    ]

-- UserUpdate writes only when it has found a user, or has met an error other than that there is
-- none, and the signature of the update is valid for that user's key. Then it writes once, the user
-- with the fields that the update gives, under the condition on the ID, and with the old ID and
-- name.
pub user_update_authority :
    (id : ℕ) (signature : Text) (update : User) (env : Env) (w : Log Write)
    → (user_update id signature update env w).1.writes ≢ w.writes
    → (current : User) × IsOwnUpdate env w id signature update current
      × ((user_update id signature update env w).1.writes
          ≡ update_user (with_id [] id) (with_update current update) ∷ w.writes)
      × ((with_update current update).id ≡ current.id)
      × ((with_update current update).name ≡ current.name)
unfolding user_update with_update
user_update_authority id signature update env w changed =
    let lookup : Lookup User = env.find_user w (with_id [] id) in
    let store : User → Exec UserError (Unit {0}) =
      λ current. write other_error (update_user (with_id [] id) (with_update current update)) in
    let (current, e₁, same₁, c₁) =
      >>=-written (current_user-IsQuiet lookup)
        (λ current. check_update id signature update current >> store current) env (asked w)
        changed in
    let w' : Log Write = (current_user lookup env (asked w)).1 in
    let change : Write = update_user (with_id [] id) (with_update current update) in
    let (u, e₂, same₂, c₂) =
      >>=-written (check_update-IsQuiet id signature update current) (λ _. store current) env w'
        c₁ in
    let (key, is_key, signed, name_ok) = check_update-done id signature update current env w' e₂ in
    (
      current,
      record {
        key = key;
        starts = current_user-Starts lookup env (asked w) e₁;
        has_key = is_key;
        signed = signed;
        given_name = given_name update.name current.name name_ok;
      },
      ap (λ (v : Log Write). v.writes) (same₁ ∙ same₂)
          ∙ write-writes other_error change env (check_update id signature update current env w').1
          ∙ ap (λ l. change ∷ l)
              ((check_update-IsQuiet id signature update current).same_writes env w'
                ∙ (current_user-IsQuiet lookup).same_writes env (asked w)),
      refl,
      refl,
    )
