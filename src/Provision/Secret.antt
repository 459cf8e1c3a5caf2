-- ===== src/Provision/Secret.antt =====
-- provision/builders/reservationBuilder.go: encryptSecret.
use tfexplorer.Base.{ℕ, Option, none, some, [], if◌then◌else◌}
use tfexplorer.Base.Text.{Text, is_empty}
use tfexplorer.Base.Hex.{encode_to_string}

-- The key of a node by its ID, and the encryption of a text with it, which is random: one is told
-- from another by its number.
pub record SecretEnv : Type 0 where
  pub key_from_id : Text → Option Text
  pub encrypt : ℕ → Text → Text → Option Text

abbrev hex_of : Option Text → Option Text
hex_of none = none
hex_of (some encrypted) = some (encode_to_string encrypted)

abbrev encrypt_with : SecretEnv → ℕ → Text → Option Text → Option Text
encrypt_with env n plain none = none
encrypt_with env n plain (some pubkey) = hex_of (env.encrypt n plain pubkey)

-- encryptSecret of a text for a node; `none` is its error.
unfoldable pub encrypt_secret : SecretEnv → ℕ → Text → Text → Option Text
unfolding encode_to_string
encrypt_secret env n plain node_id =
    if is_empty plain then some [] else encrypt_with env n plain (env.key_from_id node_id)
