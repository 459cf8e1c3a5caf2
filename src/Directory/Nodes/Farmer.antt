-- ===== src/Directory/Nodes/Farmer.antt =====
-- The owner of a node's farm configures the node.
use tfexplorer.Base.{
  ◌≡◌, inl, inr, refl, ap, ◌∙◌, Bool, true, false, not, Option, some, [], arith, Option-cases, ◌==◌,
}
use tfexplorer.Base.Text.{Text, is_empty}
use tfexplorer.Base.Decimal.{parse_int}
use tfexplorer.Models.Directory.{PublicIface, Node, Farm}
use tfexplorer.Mw.{Status, bad_request, not_found, forbidden, internal, ok}
use tfexplorer.Program.{
  Log, Lookup, found, no_documents, db_error, document, done, map_error, asked, guard-done,
}
use tfexplorer.Program.Quiet.{
  IsQuiet, pure-IsQuiet, or_fail-IsQuiet, guard-IsQuiet, ask-IsQuiet, >>=-IsQuiet, recover-IsQuiet,
}
use tfexplorer.Program.Confined.{
  IsConfined, write-IsConfined, guard-IsConfined, map_error-IsConfined, IsJustified,
  >>=-IsJustified, ask-IsJustified, or_fail-IsJustified, answer-IsJustified, confined-IsJustified,
}
use tfexplorer.Directory.Outside.{
  Env, Write, set_node, Change, public_config, free_to_use, directory_store,
}
use tfexplorer.Directory.Filters.{with_node_id, with_farm}
use tfexplorer.Directory.Node.{other_error, node_update, node_update_free_to_use}
use tfexplorer.Directory.PublicConfig.{validate_public_iface}
use tfexplorer.Directory.Nodes.{
  get_node, check_farmer, is_farmer_authorized, farm_owner, next_version, configure_free_to_use,
  answer,
}

-- The key that signed names, as a number, the owner of the farm that is found for a node.
pub record IsFarmer (env : Env) (w : Log Write) (key_id : Text) (node : Node) : Type 0 where
  pub farm : Farm
  pub of_node : env.find_farm w (with_farm [] node.farm_id) ≡ found farm
  pub owns : parse_int key_id ≡ some farm.threebot_id

pub document-some : {A : Type 0} (o : Lookup A) {a : A} → document o ≡ some a → o ≡ found a
document-some (found b) h = ground arith
document-some no_documents h = cc
document-some db_error h = cc

check_farmer-IsFarmer :
    (key_id : Text) (node : Node) (env : Env) (w : Log Write)
    → (check_farmer key_id node env w).0 ≡ done tt
    → IsFarmer env w key_id node
unfolding check_farmer is_farmer_authorized farm_owner
check_farmer-IsFarmer key_id node env w h =
    elim (Option-cases (document (env.find_farm w (with_farm [] node.farm_id)))) [
      | inl missing ↦ absurd (ground arith)
      | inr (farm, is_farm) ↦ elim (Option-cases (parse_int key_id)) [
        | inl bad ↦ absurd (ground arith)
        | inr (farmer, is_farmer) ↦
            let same : (farmer == farm.threebot_id) ≡ true =
              guard-done forbidden (farmer == farm.threebot_id) env (asked w)
                (rw (is_farm, is_farmer) at h) in
            record {
              farm = farm;
              of_node = document-some _ is_farm;
              owns = is_farmer ∙ ap some (ground arith);
            }
      ]
    ]

check_farmer-IsQuiet : (key_id : Text) (node : Node) → IsQuiet (check_farmer key_id node)
unfolding check_farmer is_farmer_authorized farm_owner
check_farmer-IsQuiet key_id node =
    >>=-IsQuiet
      (recover-IsQuiet false (
        >>=-IsQuiet
          (>>=-IsQuiet
            (ask-IsQuiet internal
              (λ (env : Env) w. document (env.find_farm w (with_farm [] node.farm_id))))
            λ farm. pure-IsQuiet farm.threebot_id)
          λ owner.
            >>=-IsQuiet (or_fail-IsQuiet bad_request (parse_int key_id))
              λ farmer. pure-IsQuiet (farmer == owner)))
      λ authorized. guard-IsQuiet forbidden authorized

-- A choice of the farmer of the node that is found for an ID.
pub record IsChoice (env : Env) (w : Log Write) (node_id key_id : Text) (body : Option Bool)
    (c : Write) : Type 0 where
  pub node : Node
  pub choice : Bool
  pub given : body ≡ some choice
  pub is_node : env.find_node w (with_node_id [] node_id) false ≡ some node
  pub farmer : IsFarmer env (asked w) key_id node
  pub change : c ≡ set_node (with_node_id [] node.node_id) (free_to_use choice)

-- nodeUpdate under a handler, as the last step.
last_change :
    (P : Write → Type 0) (e : Status) (node_id : Text) (x : Change)
    → P (set_node (with_node_id [] node_id) x)
    → IsConfined P (map_error (answer e) (node_update node_id x))
unfolding node_update
last_change P e node_id x h = map_error-IsConfined P (answer e) (
    guard-IsConfined P other_error (not (is_empty node_id))
      λ _. write-IsConfined P other_error (set_node (with_node_id [] node_id) x) h)

-- What configureFreeToUse writes is the choice of the body, into the node that was found for the ID,
-- and the request is signed by a key whose name is the number of the owner of that node's farm.
pub configure_free_to_use-IsChoice :
    (node_id key_id : Text) (body : Option Bool) (env : Env) (w : Log Write)
    → IsJustified
        (IsChoice env w node_id key_id body)
        (configure_free_to_use node_id key_id body)
        env
        w
unfolding configure_free_to_use get_node node_update_free_to_use
configure_free_to_use-IsChoice node_id key_id body env w =
    ask-IsJustified _ not_found (λ env w. env.find_node w (with_node_id [] node_id) false)
      λ node e₁. >>=-IsJustified _ (check_farmer-IsQuiet key_id node) λ _ e₂.
        or_fail-IsJustified _ bad_request body λ choice e₃. answer-IsJustified _ ok (
          confined-IsJustified _ (
            last_change _ internal node.node_id (free_to_use choice) (record {
              node = node;
              choice = choice;
              given = e₃;
              is_node = e₁;
              farmer = check_farmer-IsFarmer key_id node env (asked w) e₂;
              change = refl;
            })))

-- A public configuration by the farmer of the node that is found for an ID. `w'` is the world of the
-- second search for the node.
pub record IsConfiguration (env : Env) (w : Log Write) (node_id key_id : Text)
    (body : Option PublicIface) (c : Write) : Type 0 where
  pub iface : PublicIface
  pub node : Node
  pub later : Node
  pub w' : Log Write
  pub given : body ≡ some iface
  pub valid : validate_public_iface iface ≡ true
  pub is_node : env.find_node w (with_node_id [] node_id) false ≡ some node
  pub farmer : IsFarmer env (asked w) key_id node
  pub is_later : env.find_node w' (with_node_id [] node_id) false ≡ some later
  pub change :
      c
      ≡ set_node
          (with_node_id [] node_id)
          (public_config (record iface { version = next_version later.public_config }))
