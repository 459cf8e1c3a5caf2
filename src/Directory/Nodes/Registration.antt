-- ===== src/Directory/Nodes/Registration.antt =====
-- What the registration of a node stores.
use tfexplorer.Base.{
  ℕ, ◌≡◌, inl, inr, refl, sym, ap, ◌∙◌, Bool, true, false, Option, none, some, [], Option-cases,
}
use tfexplorer.Models.Directory.{Node, Farm}
use tfexplorer.Mw.{bad_request, created}
use tfexplorer.Program.{
  Log, Outcome, ◌>>◌, Lookup, found, no_documents, db_error, asked, done, failed,
}
use tfexplorer.Program.Quiet.{IsQuiet, pure-IsQuiet, ask-IsQuiet, ask_total-IsQuiet, >>=-IsQuiet}
use tfexplorer.Program.Confined.{
  IsJustified, or_fail-IsJustified, ask_total-IsJustified, guard-IsJustified, >>=-IsJustified,
  derive_total-IsJustified, map_error-IsJustified, answer-IsJustified, confined-IsJustified,
  write-IsConfined,
}
use tfexplorer.Directory.Outside.{Env, Exec, Write, upsert_node, directory_store}
use tfexplorer.Directory.Filters.{with_node_id, with_farm}
use tfexplorer.Directory.Node.{
  DirectoryError, other_error, farm_exists, identity, validate_node, node_create,
}
use tfexplorer.Directory.Nodes.{register_node, node_create_status}

-- What a node takes over from the document that it replaces.
pub record Keeps (node current : Node) : Type 0 where
  pub same_id : node.id ≡ current.id
  pub same_created : node.created ≡ current.created
  pub same_free_to_use : node.free_to_use ≡ current.free_to_use

-- The document of a registered node, where `o` is what was found for its node ID.
pub Replaces : Option Node → Node → Type 0
Replaces none node = Unit
Replaces (some current) node = Keeps node current

-- The fields of a node that its registration does not choose.
pub record SameBody (node sent : Node) : Type 0 where
  pub same_node_id : node.node_id ≡ sent.node_id
  pub same_farm : node.farm_id ≡ sent.farm_id
  pub same_key : node.public_key_hex ≡ sent.public_key_hex
  pub same_config : node.public_config ≡ sent.public_config

identity-IsQuiet : (node : Node) (o : Option Node) → IsQuiet (identity node o)
identity-IsQuiet node none =
    >>=-IsQuiet (ask-IsQuiet other_error (λ (env : Env) w. env.next_id w)) λ id.
      >>=-IsQuiet (ask_total-IsQuiet (λ (env : Env) w. env.now w))
        λ now. pure-IsQuiet (record node { id = id; created = now })
identity-IsQuiet node (some current) = pure-IsQuiet _

-- What is done with a farm is done where there is one.
farm_exists-IsJustified :
    {A : Type 0} (P : Write → Type 0) (o : Lookup Farm) {m : Exec DirectoryError A} {env : Env}
    {w : Log Write}
    → ((farm : Farm) → o ≡ found farm → IsJustified P m env w)
    → IsJustified P (farm_exists o >> m) env w
farm_exists-IsJustified P (found f) rest = record { adds = (rest f refl).adds }
farm_exists-IsJustified P no_documents rest = record {
  adds = record { added = []; in_front = refl; each = tt };
}
farm_exists-IsJustified P db_error rest = record {
  adds = record { added = []; in_front = refl; each = tt };
}

abbrev done_of : Node → Outcome DirectoryError Node
done_of n = done n

done≡done : {n n' : Node} → done_of n ≡ done_of n' → n ≡ n'
done≡done h = cc

SameBody-of :
    {sent node : Node} (id created' : ℕ) (free : Bool)
    → record sent { id = id; created = created'; free_to_use = free } ≡ node
    → SameBody node sent
SameBody-of id created' free e = record {
  same_node_id = sym (ap (λ (n : Node). n.node_id) e);
  same_farm = sym (ap (λ (n : Node). n.farm_id) e);
  same_key = sym (ap (λ (n : Node). n.public_key_hex) e);
  same_config = sym (ap (λ (n : Node). n.public_config) e);
}

identity-Replaces :
    (node : Node) (o : Option Node) (env : Env) (w : Log Write) {node' : Node}
    → (identity node o env w).0 ≡ done node'
    → Replaces o node' × SameBody node' node
unfolding Replaces
identity-Replaces node none env w h = elim (Option-cases (env.next_id w)) [
  | inl no_id ↦ absurd (failed≢done (rw no_id at h))
  | inr (id, is_id) ↦
      (tt, SameBody-of id (env.now (asked w)) node.free_to_use (done≡done (rw is_id at h)))
]
  where
    failed≢done : {n : Node} → ¬ (failed other_error ≡ done n)
    failed≢done h = cc
identity-Replaces node (some current) env w h =
    let e = done≡done h in
    (
      record {
        same_id = sym (ap (λ (n : Node). n.id) e);
        same_created = sym (ap (λ (n : Node). n.created) e);
        same_free_to_use = sym (ap (λ (n : Node). n.free_to_use) e);
      },
      SameBody-of current.id current.created current.free_to_use e,
    )

Replaces-updated :
    (o : Option Node) (node : Node) (now : ℕ)
    → Replaces o node
    → Replaces o (record node { updated = now })
unfolding Replaces
Replaces-updated none node now h = tt
Replaces-updated (some current) node now h = record {
  same_id = h.same_id;
  same_created = h.same_created;
  same_free_to_use = h.same_free_to_use;
}

-- The document that a registration stores for a node: valid, of a farm that is found, without a
-- public configuration, and with what it keeps of the document that is found for its node ID.
pub record IsRegistration (env : Env) (w : Log Write) (body : Option Node) (c : Write)
    : Type 0 where
  pub sent : Node
  pub farm : Farm
  pub stored : Node
  pub given : body ≡ some sent
  pub valid : validate_node env.base58_encode (record sent { public_config = none }) ≡ true
  pub of_farm : env.find_farm w (with_farm [] sent.farm_id) ≡ found farm
  pub replaces : Replaces (env.find_node (asked w) (with_node_id [] sent.node_id) false) stored
  pub same : SameBody stored (record sent { public_config = none })
  pub change : c ≡ upsert_node (with_node_id [] sent.node_id) stored

-- What registerNode writes is a document for the node ID of the body: the body is valid, so that the
-- node ID is that of its public key, and its farm is found. The node ID, the farm and the key are
-- those of the body, there is no public configuration, and the ID, the time of creation and the
-- choice to be free are those of the document that was found for the node ID, if there is one.
pub register_node-IsRegistration :
    (body : Option Node) (env : Env) (w : Log Write)
    → IsJustified (IsRegistration env w body) (register_node body) env w
unfolding register_node node_create
register_node-IsRegistration body env w = or_fail-IsJustified _ bad_request body λ sent e₁.
    let node : Node = record sent { public_config = none } in
    answer-IsJustified _ created (
      map_error-IsJustified _ node_create_status (
        derive_total-IsJustified _ (λ (env : Env). validate_node env.base58_encode node)
          λ valid e₂. guard-IsJustified _ other_error valid λ e₃.
            ask_total-IsJustified _ (λ (env : Env) w. env.find_farm w (with_farm [] sent.farm_id))
              λ o e₄. farm_exists-IsJustified _ o λ farm e₅.
                ask_total-IsJustified _
                  (λ (env : Env) w. env.find_node w (with_node_id [] sent.node_id) false)
                  λ current e₆. >>=-IsJustified _ (identity-IsQuiet node current) λ node' e₇.
                    ask_total-IsJustified _ (λ (env : Env) w. env.now w)
                      λ now e₈.
                        let stored : Node = record node' { updated = now } in
                        let (kept, same) = identity-Replaces node current env _ e₇ in
                        answer-IsJustified _ node'.id (
                          confined-IsJustified _ (
                            write-IsConfined _ other_error
                              (upsert_node (with_node_id [] sent.node_id) stored)
                              (record {
                                sent = sent;
                                farm = farm;
                                stored = stored;
                                given = e₁;
                                valid = sym e₂ ∙ e₃;
                                of_farm = sym e₄ ∙ e₅;
                                replaces = rw e₆ at (Replaces-updated current node' now kept);
                                same = record {
                                  same_node_id = same.same_node_id;
                                  same_farm = same.same_farm;
                                  same_key = same.same_key;
                                  same_config = same.same_config;
                                };
                                change = refl;
                              })))))
