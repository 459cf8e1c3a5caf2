-- ===== src/Examples/Containers.antt =====
-- A container with one plain and one secret variable.
use tfexplorer.Base.{◌≡◌, refl, some, [], ◌∷◌, All, Among, false}
use tfexplorer.Base.Text.{Text, codes, text_eq}
use tfexplorer.Models.Workloads.{Container}
use tfexplorer.Provision.Dict.{get_or}
use tfexplorer.Provision.Secret.{SecretEnv}
use tfexplorer.Provision.Container.{new_container, build_container, with_envs, with_secret_envs}
use tfexplorer.Provision.Container.Built.{IsEncrypted, build_container-IsEncrypted}

abbrev secret_env : SecretEnv
secret_env = record {
  key_from_id = λ id. some (codes "pk");
  encrypt = λ n plain key. some (b'#' ∷ plain);
}

plain_container : Container
plain_container =
    with_secret_envs
      (with_envs (new_container (codes "n") (codes "f") []) ((codes "A", codes "1") ∷ []))
      ((codes "B", codes "2331") ∷ [])

built_container : Container
built_container =
    with_secret_envs (new_container (codes "n") (codes "f") [])
      ((codes "B", codes "2331") ∷ (codes "A", codes "2331") ∷ [])

build_container-IsEncrypted_example :
    (built_container.environment ≡ [])
    × ((k v : Text)
        → Among (k, v) plain_container.environment
        → IsEncrypted secret_env plain_container.node_id v
            (get_or built_container.secret_environment k []))
    × ((k : Text)
        → All (λ e. text_eq e.0 k ≡ false) plain_container.environment
        → get_or built_container.secret_environment k []
          ≡ get_or plain_container.secret_environment k [])
unfolding plain_container built_container build_container with_envs with_secret_envs new_container
    text_eq
build_container-IsEncrypted_example =
    build_container-IsEncrypted secret_env plain_container {b = built_container} (tt, tt) refl
