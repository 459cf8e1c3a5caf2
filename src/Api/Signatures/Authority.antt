-- ===== src/Api/Signatures/Authority.antt =====
-- Who can sign.
use tfexplorer.Base.{ℕ, ◌≡◌, ◌≢◌, ap, Bool, true, Option, some, arith, inl, inr, Option-cases}
use tfexplorer.Base.Text.{Text}
use tfexplorer.Models.Workloads.{sign, SigningRequest, SigningSignature, Reservation, action_eq}
use tfexplorer.Pipeline.{is_signer}
use tfexplorer.World.{Env, World, User, done, guard, >>=-changed, guard-world, guard-done}
use tfexplorer.Api.Handler.{Status, unauthorized, not_found, load}
use tfexplorer.Api.Signatures.{
  Signing, read_request, check_signer, signature_verify, sign_provision, sign_delete,
}

-- The signer of a request is one that the reservation asks for and a known user, and the signature
-- is valid for the user's key.
pub record IsAuthorized (env : Env) (w : World) (s : Signing) (request : SigningRequest)
    (r : Reservation) : Type 0 where
  pub user : User
  pub required : is_signer s.signature.tid request.signers ≡ true
  pub known : env.find_user w s.signature.tid ≡ some user
  pub valid : signature_verify env r user.pubkey s.sig ≡ true

read_request-writes :
    (body : Option SigningSignature) (res_id : Text) (env : Env) (w : World)
    → (read_request body res_id env w).1 ≡ w
unfolding read_request
read_request-writes body res_id env w = ground arith

load-writes : (e : Status) (id : ℕ) (env : Env) (w : World) → (load e id env w).1.writes ≡ w.writes
unfolding load
load-writes e id env w = ground arith

check_signer-writes :
    (s : Signing) (request : SigningRequest) (r : Reservation) (env : Env) (w : World)
    → (check_signer s request r env w).1.writes ≡ w.writes
unfolding check_signer
check_signer-writes s request r env w = ground arith

check_signer-IsAuthorized :
    (s : Signing) (request : SigningRequest) (r : Reservation) (env : Env) (w : World)
    → (check_signer s request r env w).0 ≡ done tt
    → IsAuthorized env w s request r
unfolding check_signer
check_signer-IsAuthorized s request r env w h =
    elim (Option-cases (env.find_user w s.signature.tid)) [
      | inl unknown ↦ absurd (ground arith)
      | inr (user, found) ↦ record {
        user = user;
        required = ground arith;
        known = found;
        valid = ground arith;
      }
    ]

-- signProvision writes only for a request that could be read, for a reservation that is found and
-- is, after the pipeline, in the sign state, and with a signature that is authorized by it.
pub sign_provision_authority :
    (body : Option SigningSignature) (res_id : Text) (env : Env) (w : World)
    → (sign_provision body res_id env w).1.writes ≢ w.writes
    → (s : Signing) × (r : Reservation) × ((read_request body res_id env w).0 ≡ done s)
      × ((load not_found s.id env w).0 ≡ done r)
      × (r.next_action ≡ sign)
      × IsAuthorized env
          (load not_found s.id env w).1
          s
          r.data_reservation.signing_request_provision
          r
unfolding sign_provision
sign_provision_authority body res_id env w changed =
    let (s, read, c₁) =
      >>=-changed (read_request body res_id) _ env w
        (ap (λ (v : World). v.writes) (read_request-writes body res_id env w)) changed in
    let (r, loaded, c₂) =
      >>=-changed (load not_found s.id) _ env w (load-writes not_found s.id env w)
        (rw (read_request-writes body res_id env w) at c₁) in
    let w' : World = (load not_found s.id env w).1 in
    let test : Bool = action_eq r.next_action sign in
    let (u, passed, c₃) =
      >>=-changed (guard unauthorized test) _ env w'
        (ap (λ (v : World). v.writes) (guard-world unauthorized test env w')) c₂ in
    let request : SigningRequest = r.data_reservation.signing_request_provision in
    let (u', checked, c₄) =
      >>=-changed (check_signer s request r) _ env w' (check_signer-writes s request r env w')
        (rw (guard-world unauthorized test env w') at c₃) in
    (
      s,
      r,
      read,
      loaded,
      ground (arith, guard-done unauthorized test env w' passed),
      check_signer-IsAuthorized s request r env w' checked,
    )

-- signDelete writes only for a request that could be read, for a reservation that is found, and
-- with a signature that is authorized by it. The state of the reservation does not matter.
pub sign_delete_authority :
    (body : Option SigningSignature) (res_id : Text) (env : Env) (w : World)
    → (sign_delete body res_id env w).1.writes ≢ w.writes
    → (s : Signing) × (r : Reservation) × ((read_request body res_id env w).0 ≡ done s)
      × ((load not_found s.id env w).0 ≡ done r)
      × IsAuthorized env (load not_found s.id env w).1 s r.data_reservation.signing_request_delete r
unfolding sign_delete
sign_delete_authority body res_id env w changed =
    let (s, read, c₁) =
      >>=-changed (read_request body res_id) _ env w
        (ap (λ (v : World). v.writes) (read_request-writes body res_id env w)) changed in
    let (r, loaded, c₂) =
      >>=-changed (load not_found s.id) _ env w (load-writes not_found s.id env w)
        (rw (read_request-writes body res_id env w) at c₁) in
    let w' : World = (load not_found s.id env w).1 in
    let request : SigningRequest = r.data_reservation.signing_request_delete in
    let (u', checked, c₃) =
      >>=-changed (check_signer s request r) _ env w' (check_signer-writes s request r env w') c₂ in
    (s, r, read, loaded, check_signer-IsAuthorized s request r env w' checked)
