-- ===== src/Examples/Users.antt =====
-- Examples of the phonebook.
use tfexplorer.Base.{◌≡◌, ◌≢◌, refl, Bool, true, false, some, List, [], ◌∷◌, if◌then◌else◌}
use tfexplorer.Base.Text.{codes, text_eq}
use tfexplorer.Models.Phonebook.{User}
use tfexplorer.Program.{Log, done}
use tfexplorer.Phonebook.Outside.{
  Env, UserKey, by_id, Write, update_user, found, no_documents, inserted,
}
use tfexplorer.Phonebook.User.{
  with_id, with_name, no_user, with_update, check_update, user_update, user_create,
}
use tfexplorer.Phonebook.User.Update.{IsOwnUpdate, user_update_authority}
use tfexplorer.Phonebook.User.Shift.{in_email, in_host, user_update-in_email}

abbrev no_writes : Log Write
no_writes = record { writes = []; reads = 0 }

abbrev anna : User
anna = record no_user { id = 4; name = codes "anna"; email = codes "a@b"; pubkey = codes "ab" }

-- Every search by ID finds the user, no other one does. A signature is valid if it is the key.
abbrev env : Env
env = record {
  write_ok = λ w c. true;
  insertion = λ w. inserted;
  find_user = λ w keys. if is_by_id keys then found anna else no_documents;
  users_page = λ w keys pager. some (anna ∷ []);
  count_users = λ w keys. some 1;
  next_id = λ w. some 4;
  to_lower = λ s. s;
  key_from_hex = λ s. some s;
  verify = λ key message signature. text_eq key signature;
  key_size_ok = λ key. true;
}
  where
    is_by_id : List UserKey → Bool
    is_by_id (by_id n ∷ keys) = true
    is_by_id _ = false

abbrev moves : User
moves = record no_user { host = codes "h" }

cons≢nil : (ws : List Write) {c : Write} {cs : List Write} → ws ≡ c ∷ cs → ws ≢ []
cons≢nil ws h e = cc

writes_update : (user_update 4 (codes "ab") moves env no_writes).1.writes ≢ []
unfolding user_update check_update with_update with_id text_eq
writes_update =
    cons≢nil (user_update 4 (codes "ab") moves env no_writes).1.writes
      {c = update_user (by_id 4 ∷ []) (record anna { host = codes "h" })} refl

user_update_authority_example :
    (current : User) × IsOwnUpdate env no_writes 4 (codes "ab") moves current
    × ((user_update 4 (codes "ab") moves env no_writes).1.writes
        ≡ update_user (with_id [] 4) (with_update current moves) ∷ [])
    × ((with_update current moves).id ≡ current.id)
    × ((with_update current moves).name ≡ current.name)
user_update_authority_example =
    user_update_authority 4 (codes "ab") moves env no_writes writes_update

user_update-in_email_example :
    (user_update 4
      (codes "ab")
      (in_email moves (codes "a") (codes "b") (codes "c"))
      env
      no_writes).0
    ≡ (user_update 4
        (codes "ab")
        (in_host moves (codes "a") (codes "b") (codes "c"))
        env
        no_writes).0
user_update-in_email_example =
    user_update-in_email 4 (codes "ab") moves (codes "a") (codes "b") (codes "c") env no_writes
      (λ v d. refl)

creates : (user_create (codes "anna") (codes "a@b") (codes "ab") env no_writes).0 ≡ done anna
unfolding user_create with_name
creates = refl
