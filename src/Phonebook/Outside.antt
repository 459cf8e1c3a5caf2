-- ===== src/Phonebook/Outside.antt =====
-- What the phonebook asks of the database and of the cryptography, and what it writes.
use tfexplorer.Base.{ℕ, Bool, Option, List}
use tfexplorer.Base.Text.{Text}
use tfexplorer.Models.Phonebook.{User}
use tfexplorer.Models.Paging.{Pager}
use tfexplorer.Program.{Log, Program, Store}
pub use tfexplorer.Program.{Lookup, found, no_documents, db_error}

-- A condition of a types.UserFilter.
pub data UserKey : Type 0 where
  by_id : ℕ → UserKey
  by_name : Text → UserKey
  by_email : Text → UserKey

-- InsertOne: a duplicate key is told from other errors.
pub data Insertion : Type 0 where
  inserted duplicate insert_error : Insertion

-- The writes to the user collection.
pub data Write : Type 0 where
  insert_user : User → Write
  update_user : List UserKey → User → Write

-- `to_lower` is strings.ToLower, `key_from_hex` and `verify` are of the package crypto.
pub record Env : Type 0 where
  pub write_ok : Log Write → Write → Bool
  pub insertion : Log Write → Insertion
  pub find_user : Log Write → List UserKey → Lookup User
  pub users_page : Log Write → List UserKey → Pager → Option (List User)
  pub count_users : Log Write → List UserKey → Option ℕ
  pub next_id : Log Write → Option ℕ
  pub to_lower : Text → Text
  pub key_from_hex : Text → Option Text
  pub verify : Text → Text → Text → Bool
  pub key_size_ok : Text → Bool

instance abbrev pub user_store : Store Env Write
user_store = record { write_ok = λ env w c. env.write_ok w c }

abbrev pub Exec : Type 0 → Type 0 → Type 0
Exec E A = Program Env Write E A
