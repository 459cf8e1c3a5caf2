-- ===== src/Examples/Requests.antt =====
-- Examples of the handlers.
use tfexplorer.Base.{◌≡◌, ◌≢◌, ◌↔◌, refl, true, false, Option, none, some, List, [], ◌∷◌}
use tfexplorer.Base.Text.{Text, codes, text_eq}
use tfexplorer.Models.Workloads.{sign, SigningSignature, Reservation}
use tfexplorer.Base.Hex.{decode_string}
use tfexplorer.Base.Time.{sub_time}
use tfexplorer.Base.Decimal.{parse_int}
use tfexplorer.Reservation.{expired}
use tfexplorer.Pipeline.{
  is_signer, next, check_delete_signatures, quorum_reached, check_provision_signatures,
}
use tfexplorer.Models.Workloads.{deploy, delete, zdb, deleted_state, Result}
use tfexplorer.Base.{ℕ}
use tfexplorer.Base.Decimal.{before_dash, format_int, print}
use tfexplorer.Reservation.Workloads.{workloads, collect, items, workload_key}
use tfexplorer.Reservation.{
  all_deleted, all_deleted_in, result_in, result_of, is_any, is_successfully_deployed,
}
use tfexplorer.Reservation.Validate.{validate}
use tfexplorer.World.{World, push_result, pull_result, queue_pop}
use tfexplorer.Api.Handler.{internal, reservation_part, find_workload, result_push, workload_pop}
use tfexplorer.Api.Create.{accept}
use tfexplorer.Api.Create.State.{fresh, accept_deploy}
use tfexplorer.Api.Results.{deleted_result, workload_put_deleted}
use tfexplorer.Api.Listing.{gather}
use tfexplorer.Api.Listing.Unpaid.{IsIdle, gather_idle}
use tfexplorer.Api.Results.Reports.{has_mark, workload_put_deleted-mark}
use tfexplorer.Examples.Data.{node}
use tfexplorer.Examples.Json.{plain, json_of}
use tfexplorer.World.{Env, signature_provision, signature_delete, push_signature, done}
use tfexplorer.Api.Handler.{not_found, parse_id, load}
use tfexplorer.Api.Signatures.{
  Signing, read_request, check_signer, store_signature, sign_provision, sign_delete,
}
use tfexplorer.Api.Signatures.Authority.{IsAuthorized, sign_provision_authority}
use tfexplorer.Api.Create.Currencies.{offered_currencies, free_tft}
use tfexplorer.Api.Create.Currencies.Filter.{offered_currencies_panic}
use tfexplorer.Examples.Data.{cons≢nil, signature, reservation, no_writes, env_of}

abbrev signing : Reservation
signing = reservation sign []

abbrev env : Env
env = env_of signing false

abbrev body : Option SigningSignature
body = some signature

stores : (sign_provision body (codes "12") env no_writes).1.writes ≢ []
unfolding sign_provision read_request load decode_string parse_id parse_int next expired sub_time
    check_delete_signatures quorum_reached check_provision_signatures check_signer store_signature
stores =
    cons≢nil (sign_provision body (codes "12") env no_writes).1.writes
      {c = push_signature 12 signature_provision (record signature { epoch = 5 })} refl

sign_provision_authority_example :
    (s : Signing) × (r : Reservation) × ((read_request body (codes "12") env no_writes).0 ≡ done s)
    × ((load not_found s.id env no_writes).0 ≡ done r)
    × (r.next_action ≡ sign)
    × IsAuthorized env
        (load not_found s.id env no_writes).1
        s
        r.data_reservation.signing_request_provision
        r
sign_provision_authority_example = sign_provision_authority body (codes "12") env no_writes stores

stores_deletion : (sign_delete body (codes "12") env no_writes).1.writes ≢ []
unfolding sign_delete read_request load decode_string parse_id parse_int next expired sub_time
    check_delete_signatures quorum_reached check_provision_signatures check_signer store_signature
    is_signer
stores_deletion =
    cons≢nil (sign_delete body (codes "12") env no_writes).1.writes
      {c = push_signature 12 signature_delete (record signature { epoch = 5 })} refl

abbrev tft : List Text
tft = codes "TFT" ∷ []

offered_currencies_panic_example :
    offered_currencies true (codes "TFT" ∷ free_tft ∷ free_tft ∷ []) ≡ none
unfolding text_eq
offered_currencies_panic_example = offered_currencies_panic tft (refl, tt)

abbrev posted : Reservation
posted = record {
  id = 0;
  json = codes "{}";
  data_reservation = plain 9_000_000_000_000;
  customer_tid = 7;
  customer_signature = codes "ab";
  next_action = deploy;
  signatures_provision = [];
  signatures_farmer = [];
  signatures_delete = [];
  epoch = 0;
  metadata = [];
  results = [];
}

accepts : (accept (json_of posted.data_reservation) (some posted) env no_writes).0 ≡ done posted
unfolding accept expired sub_time validate is_any next check_delete_signatures
    is_successfully_deployed workloads
accepts = refl

accept_deploy_example :
    (validate (json_of posted.data_reservation) posted ≡ none)
    × (posted ≡ record (fresh posted) { next_action = deploy })
    × (posted.next_action ≢ delete)
    × ((posted.next_action ≡ deploy) ↔ (posted.next_action ≡ deploy))
accept_deploy_example =
    accept_deploy (json_of posted.data_reservation) posted env no_writes {r' = posted} accepts

-- The volume of the reservation, and the result that it is deleted.
abbrev gwid : Text
gwid = codes "12-1"

abbrev gone : Result
gone = record {
  category = zdb;
  workload_id = gwid;
  data_json = [];
  signature = [];
  state = deleted_state;
  message = [];
  epoch = 5;
  node_id = node;
}

abbrev env_deleted : Env
env_deleted = env_of (record signing { results = gone ∷ [] }) false

marks : has_mark signing.id (workload_put_deleted node gwid env_deleted no_writes).1 ≡ true
unfolding workload_put_deleted reservation_part parse_int before_dash load find_workload workloads
    next expired sub_time check_delete_signatures quorum_reached text_eq format_int print
    deleted_result result_of result_push parse_id workload_pop all_deleted all_deleted_in result_in
    collect items workload_key
marks = refl

workload_put_deleted-mark_example :
    (rid : ℕ) × (result : Result) × (w' : World) × (r : Reservation) × (reservation_part gwid
      ≡ some rid)
    × (result.state ≡ deleted_state)
    × (w'.writes
        ≡ queue_pop gwid node
          ∷ push_result rid result
          ∷ pull_result rid result.workload_id result.node_id
          ∷ [])
    × ((load internal rid env_deleted w').0 ≡ done r)
    × (r.id ≡ signing.id)
    × (all_deleted r ≡ true)
workload_put_deleted-mark_example =
    workload_put_deleted-mark signing.id node gwid env_deleted no_writes refl marks

signing-IsIdle : IsIdle env signing
unfolding expired sub_time check_delete_signatures quorum_reached
signing-IsIdle = (sign≢deploy, sign≢delete, λ a b. refl)
  where
    sign≢deploy : sign ≢ deploy
    sign≢deploy h = cc

    sign≢delete : sign ≢ delete
    sign≢delete h = cc

gather_idle_example :
    ((gather node [] (some signing ∷ []) env no_writes).0 ≡ done [])
    × ((gather node [] (some signing ∷ []) env no_writes).1.writes ≡ [])
gather_idle_example = gather_idle node [] (signing ∷ []) env no_writes (signing-IsIdle, tt)
