-- ===== src/Directory/Farms/Owner.antt =====
-- The owner of a farm changes it.
use tfexplorer.Base.{ℕ, ◌≡◌, refl, sym, ap, ◌∙◌, true, Option, some, [], ◌==◌, arith}
use tfexplorer.Base.Text.{Text}
use tfexplorer.Base.Decimal.{parse_int}
use tfexplorer.Models.Directory.{Farm}
use tfexplorer.Mw.{bad_request, not_found, forbidden, internal, ok}
use tfexplorer.Program.{Log, found, document}
use tfexplorer.Program.Confined.{
  IsJustified, or_fail-IsJustified, ask-IsJustified, guard-IsJustified, derive_total-IsJustified,
  map_error-IsJustified, answer-IsJustified, confined-IsJustified, write-IsConfined,
}
use tfexplorer.Directory.Outside.{Env, Write, set_farm, directory_store}
use tfexplorer.Directory.Filters.{with_farm}
use tfexplorer.Directory.Farm.{validate_farm, farm_update}
use tfexplorer.Directory.Node.{other_error}
use tfexplorer.Directory.Nodes.{answer}
use tfexplorer.Directory.Nodes.Farmer.{document-some}
use tfexplorer.Directory.Farms.{update_farm, get_farm_by_id}

-- A change of the farm with a given ID by its owner.
pub record IsOwnersChange (env : Env) (w : Log Write) (farm_id key_id : Text) (body : Option Farm)
    (c : Write) : Type 0 where
  pub id : ℕ
  pub farm : Farm
  pub info : Farm
  pub is_id : parse_int farm_id ≡ some id
  pub given : body ≡ some info
  pub is_farm : env.find_farm w (with_farm [] id) ≡ found farm
  pub owner : parse_int key_id ≡ some farm.threebot_id
  pub valid : validate_farm env (record info { id = id }) ≡ true
  pub change : c ≡ set_farm (with_farm [] id) (record info { id = id })

-- What updateFarm writes is the farm of the body with the ID of the path, which is valid, into the
-- farm that was found for that ID, and the request is signed by a key whose name is the number of
-- that farm's owner.
pub update_farm-IsOwnersChange :
    (farm_id key_id : Text) (body : Option Farm) (env : Env) (w : Log Write)
    → IsJustified (IsOwnersChange env w farm_id key_id body) (update_farm farm_id key_id body) env w
unfolding update_farm get_farm_by_id farm_update
update_farm-IsOwnersChange farm_id key_id body env w =
    or_fail-IsJustified _ bad_request (parse_int farm_id) λ id e₁.
      ask-IsJustified _ not_found (λ (env : Env) w. document (env.find_farm w (with_farm [] id)))
        λ farm e₂. or_fail-IsJustified _ bad_request (parse_int key_id) λ farmer e₃.
          guard-IsJustified _ forbidden (farm.threebot_id == farmer) λ e₄.
            or_fail-IsJustified _ bad_request body λ info e₅. answer-IsJustified _ ok (
              map_error-IsJustified _ (answer internal) (
                derive_total-IsJustified _
                  (λ (env : Env). validate_farm env (record info { id = id }))
                  λ good e₆. guard-IsJustified _ other_error good λ e₇. confined-IsJustified _ (
                    write-IsConfined _ other_error
                      (set_farm (with_farm [] id) (record info { id = id }))
                      (record {
                        id = id;
                        farm = farm;
                        info = info;
                        is_id = e₁;
                        given = e₅;
                        is_farm = document-some (env.find_farm w (with_farm [] id)) e₂;
                        owner = e₃ ∙ ap some (ground arith);
                        valid = sym e₆ ∙ e₇;
                        change = refl;
                      }))))
