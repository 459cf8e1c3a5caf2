-- ===== src/Phonebook/User.antt =====
-- pkg/phonebook/types/user.go: the type User, its filter, UserCreate and UserUpdate.
pub mod Update
pub mod Shift
pub mod Creation
use tfexplorer.Base.{
  ℕ, Bool, not, Option, none, some, List, [], ◌∷◌, ◌++◌, ltb, ◌==◌, if◌then◌else◌, length, ◌&&◌,
  ◌||◌,
}
use tfexplorer.Base.Text.{Text, text_eq, is_empty}
use tfexplorer.Base.Decimal.{format_int}
use tfexplorer.Models.Phonebook.{User}
use tfexplorer.Program.{
  Log, pure, fail, ask, ask_total, or_fail, guard, derive, derive_total, write, write_anyway, done,
  ◌>>=◌, ◌>>◌,
}
use tfexplorer.Phonebook.Outside.{
  Env, Exec, UserKey, by_id, by_name, by_email, Lookup, found, no_documents, db_error, Insertion,
  inserted, duplicate, insert_error, insert_user, update_user, user_store,
}

-- The errors by which the handlers tell their answers; `panic` is that of models.MustID.
pub data UserError : Type 0 where
  user_exists user_not_found bad_user_update panic other_error : UserError

-- User.Validate: `true` is a nil error.
unfoldable pub validate : (Text → Text) → User → Bool
validate to_lower u =
    text_eq (to_lower u.name) u.name
    && text_eq (to_lower u.email) u.email
    && not (ltb (length u.name) 3)

-- User.Encode
unfoldable pub encode : User → Text
encode u = format_int u.id ++ (u.name ++ (u.email ++ (u.host ++ (u.description ++ u.pubkey))))

-- UserFilter.WithID, WithName and WithEmail: a zero value adds no condition.
unfoldable pub with_id : List UserKey → ℕ → List UserKey
with_id f id = if id == 0 then f else f ++ by_id id ∷ []

unfoldable pub with_name : List UserKey → Text → List UserKey
with_name f name = if is_empty name then f else f ++ by_name name ∷ []

unfoldable pub with_email : List UserKey → Text → List UserKey
with_email f email = if is_empty email then f else f ++ by_email email ∷ []

-- The outcome of the search for a user of the same name.
abbrev check_name : Lookup User → Exec UserError (Unit {0})
check_name (found u) = fail user_exists
check_name db_error = fail other_error
check_name no_documents = pure tt

abbrev check_insertion : Insertion → Exec UserError (Unit {0})
check_insertion inserted = pure tt
check_insertion duplicate = fail user_exists
check_insertion insert_error = fail other_error

abbrev pub key_of : Text → Exec UserError Text
key_of pubkey = derive other_error (λ env. env.key_from_hex pubkey)

-- User{}
abbrev pub no_user : User
no_user = record {
  id = 0;
  name = [];
  email = [];
  pubkey = [];
  host = [];
  description = [];
  signature = [];
}

-- UserCreate
unfoldable pub user_create : Text → Text → Text → Exec UserError User
user_create name email pubkey = do
  guard other_error (not (is_empty name))
  key ← key_of pubkey
  same ← ask_total (λ env w. env.find_user w (with_name [] name))
  check_name same
  id ← ask panic (λ env w. env.next_id w)
  let user : User = record no_user { id = id; name = name; email = email; pubkey = pubkey }
  write_anyway (insert_user user)
  result ← ask_total (λ env w. env.insertion w)
  check_insertion result
  pure user

-- The user that UserUpdate works on: only ErrNoDocuments stops it, after another error the user
-- has its zero values.
abbrev pub current_user : Lookup User → Exec UserError User
current_user (found u) = pure u
current_user no_documents = fail user_not_found
current_user db_error = pure no_user

-- The new public key, where there is one, must be a key.
abbrev pub check_pubkey : Text → Exec UserError (Unit {0})
check_pubkey pubkey =
    if is_empty pubkey
    then pure tt
    else derive bad_user_update (λ env. env.key_from_hex pubkey) >>= λ key. pure tt

-- What is not empty in the update replaces what was there.
abbrev pub choose_text : Text → Text → Text
choose_text new old = if is_empty new then old else new

-- The checks of UserUpdate on the user that is found: the signature, the new key and the name.
unfoldable pub check_update : ℕ → Text → User → User → Exec UserError (Unit {0})
check_update id signature update current = do
  key ← key_of current.pubkey
  valid ← derive_total (λ env. env.verify key (encode (record update { id = id })) signature)
  guard bad_user_update valid
  check_pubkey update.pubkey
  guard bad_user_update (is_empty update.name || text_eq current.name update.name)

-- The user with the fields of an update that are not empty. The name stays.
unfoldable pub with_update : User → User → User
with_update current update = record current {
  pubkey = choose_text update.pubkey current.pubkey;
  email = choose_text update.email current.email;
  description = choose_text update.description current.description;
  host = choose_text update.host current.host;
}

-- UserUpdate
unfoldable pub user_update : ℕ → Text → User → Exec UserError (Unit {0})
user_update id signature update = do
  lookup ← ask_total (λ env w. env.find_user w (with_id [] id))
  current ← current_user lookup
  check_update id signature update current
  write other_error (update_user (with_id [] id) (with_update current update))
