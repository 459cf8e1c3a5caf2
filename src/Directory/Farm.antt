-- ===== src/Directory/Farm.antt =====
-- pkg/directory/types/farm.go: the validation, the creation and the update of farms.
use tfexplorer.Base.{
  ℕ, Bool, true, false, not, Option, none, some, List, [], ◌∷◌, ◌==◌, leb, ◌&&◌, ◌||◌, all,
}
use tfexplorer.Base.Text.{Text, is_empty}
use tfexplorer.Models.Directory.{WalletAddress, Farm}
use tfexplorer.Stellar.Validation.{AddressValidator, new_address_validator, is_valid_address}
use tfexplorer.Program.{pure, ask, guard, derive_total, write, ◌>>=◌, ◌>>◌}
use tfexplorer.Directory.Outside.{Env, Exec, insert_farm, set_farm, directory_store}
use tfexplorer.Directory.Filters.{with_farm}
use tfexplorer.Directory.Node.{DirectoryError, other_error}

abbrev between : ℕ → ℕ → ℕ → Bool
between lo hi c = leb lo c && leb c hi

abbrev is_farm_name_char : ℕ → Bool
is_farm_name_char c =
    between b'a' b'z' c || between b'A' b'Z' c || between b'0' b'9' c || c == b'-' || c == b'_'

-- farmNamePattern: "^[a-zA-Z0-9-_]+$"
unfoldable pub matches_farm_name : Text → Bool
matches_farm_name s = not (is_empty s) && all is_farm_name_char s

-- Whether a wallet's asset is supported, and whether its address is accepted.
abbrev pub is_supported : Option AddressValidator → Bool
is_supported none = false
is_supported (some v) = true

abbrev pub accepts : Env → Option AddressValidator → Text → Bool
accepts env none address = true
accepts env (some v) address = is_valid_address env.account env.limit_is_positive v address

-- The loop over the wallet addresses: those of an unsupported asset are passed over, and `seen`
-- tells whether another one was met.
unfoldable pub wallets_valid : Env → Bool → List WalletAddress → Bool
wallets_valid env seen [] = seen
wallets_valid env seen (a ∷ addresses) =
    let v = new_address_validator env.network a.asset in
    let rest = wallets_valid env (seen || is_supported v) addresses in
    accepts env v a.address && rest

-- Farm.Validate: `true` is a nil error.
unfoldable pub validate_farm : Env → Farm → Bool
unfolding matches_farm_name wallets_valid
validate_farm env f =
    matches_farm_name f.name
    && not (f.threebot_id == 0)
    && has_wallets f.wallet_addresses
    && (is_empty env.network || wallets_valid env false f.wallet_addresses)
  where
    has_wallets : List WalletAddress → Bool
    has_wallets [] = false
    has_wallets (a ∷ addresses) = true

-- FarmCreate
unfoldable pub farm_create : Farm → Exec DirectoryError ℕ
farm_create farm = do
  good ← derive_total (λ env. validate_farm env farm)
  guard other_error good
  id ← ask other_error (λ env w. env.next_id w)
  write other_error (insert_farm (record farm { id = id }))
  pure id

-- FarmUpdate
unfoldable pub farm_update : ℕ → Farm → Exec DirectoryError (Unit {0})
farm_update id farm = do
  good ← derive_total (λ env. validate_farm env (record farm { id = id }))
  guard other_error good
  write other_error (set_farm (with_farm [] id) (record farm { id = id }))
