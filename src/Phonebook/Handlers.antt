-- ===== src/Phonebook/Handlers.antt =====
-- pkg/phonebook/user.go: the handlers of users; mw/auth.go: the key of a user by whom a request is
-- signed.
use tfexplorer.Base.{ℕ, Bool, Option, none, some, List, [], not}
use tfexplorer.Base.Text.{Text, is_empty}
use tfexplorer.Base.Hex.{decode_string}
use tfexplorer.Base.Decimal.{parse_int}
use tfexplorer.Models.Phonebook.{User}
use tfexplorer.Models.Paging.{page_from_request}
use tfexplorer.Mw.{Status, bad_request, not_found, conflict, internal, panicked, Success, ok}
use tfexplorer.Program.{
  Log, pure, ask, or_fail, guard, map_error, derive, derive_total, document, ◌>>=◌, ◌>>◌,
}
use tfexplorer.Phonebook.Outside.{Env, Exec, Write}
use tfexplorer.Phonebook.User.{
  UserError, user_exists, bad_user_update, panic, validate, with_id, with_name, with_email,
  user_create, user_update,
}

-- UserAPI.parseID
unfoldable pub parse_user_id : Text → Option ℕ
parse_user_id id = parse_int id

-- The answer of `create` for an error of UserCreate.
unfoldable pub create_status : UserError → Status
create_status user_exists = conflict
create_status panic = panicked
create_status _ = internal

-- The answer of `register` for an error of UserUpdate.
unfoldable pub register_status : UserError → Status
register_status bad_user_update = bad_request
register_status panic = panicked
register_status _ = internal

-- UserAPI.create
unfoldable pub create_user : Option User → Exec Status User
create_user body = do
  user ← or_fail bad_request body
  valid ← derive_total (λ env. validate env.to_lower user)
  guard bad_request valid
  map_error create_status (user_create user.name user.email user.pubkey)

-- UserAPI.register on a payload, an update and its signature in hexadecimal digits.
unfoldable pub register_user : Text → Option (User × Text) → Exec Status Success
register_user user_id body = do
  id ← or_fail bad_request (parse_user_id user_id)
  payload ← or_fail bad_request body
  guard bad_request (not (is_empty payload.1))
  signature ← or_fail bad_request (decode_string payload.1)
  map_error register_status (user_update id signature payload.0)
  pure ok

-- UserAPI.list: a page of users, and how many there are on all pages.
unfoldable pub list_users : Text → Text → Text → Text → Exec Status (List User × ℕ)
list_users name email page_text size_text = do
  users ← ask internal λ env w.
      env.users_page w (with_email (with_name [] name) email)
        (page_from_request page_text size_text)
  total ← ask internal (λ env w. env.count_users w (with_email (with_name [] name) email))
  pure (users, total)

-- UserAPI.get
unfoldable pub get_user : Text → Exec Status User
get_user user_id = do
  id ← or_fail bad_request (parse_user_id user_id)
  ask not_found (λ env w. document (env.find_user w (with_id [] id)))

-- UserAPI.validate on a payload, the data and its signature in hexadecimal digits.
unfoldable pub validate_signature : Text → Option (Text × Text) → Exec Status Bool
validate_signature user_id body = do
  id ← or_fail bad_request (parse_user_id user_id)
  payload ← or_fail bad_request body
  data' ← or_fail bad_request (decode_string payload.0)
  signature ← or_fail bad_request (decode_string payload.1)
  user ← ask not_found (λ env w. document (env.find_user w (with_id [] id)))
  key ← derive internal (λ env. env.key_from_hex user.pubkey)
  sized ← derive_total (λ env. env.key_size_ok key)
  guard internal sized
  derive_total (λ env. env.verify key data' signature)

abbrev key_of_user : Option User → Option Text
key_of_user none = none
key_of_user (some user) = decode_string user.pubkey

abbrev lookup_key : Env → Log Write → Option ℕ → Option Text
lookup_key env w none = none
lookup_key env w (some uid) = key_of_user (document (env.find_user w (with_id [] uid)))

-- UserKeyGetter.GetKey, where nil is `none`.
unfoldable pub get_key : Env → Log Write → Text → Option Text
get_key env w id = lookup_key env w (parse_int id)
