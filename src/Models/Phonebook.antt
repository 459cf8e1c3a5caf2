-- ===== src/Models/Phonebook.antt =====
-- models/generated/phonebook: the document of a user.
use tfexplorer.Base.{ℕ}
use tfexplorer.Base.Text.{Text}

pub record User : Type 0 where
  pub id : ℕ
  pub name : Text
  pub email : Text
  pub pubkey : Text
  pub host : Text
  pub description : Text
  pub signature : Text
