-- ===== src/Api/Signatures.antt =====
-- The handlers signProvision and signDelete of pkg/workloads/reservation.go.
pub mod Authority
use tfexplorer.Base.{ℕ, Bool, not, Option, List, [], ◌++◌, if◌then◌else◌}
use tfexplorer.Base.Text.{Text}
use tfexplorer.Base.Hex.{decode_string}
use tfexplorer.Base.Decimal.{format_int}
use tfexplorer.Models.Workloads.{
  NextAction, sign, deploy, delete, SigningRequest, SigningSignature, Reservation, action_eq,
}
use tfexplorer.Reservation.Workloads.{workloads}
use tfexplorer.Pipeline.{is_signer}
use tfexplorer.World.{
  env_store, Env, World, SignatureMode, signature_provision, signature_delete, push_signature,
  queue_push, Exec, pure, ask, ask_total, write, write_anyway, or_fail, guard, when, done, ◌>>=◌,
  ◌>>◌,
}
use tfexplorer.Api.Handler.{
  Status, bad_request, unauthorized, not_found, internal, Success, created, parse_id, load,
  set_reservation_deleted,
}

-- What both handlers do first with a request: the signature, its bytes, and the reservation's ID.
pub record Signing : Type 0 where
  pub signature : SigningSignature
  pub sig : Text
  pub id : ℕ

unfoldable pub read_request : Option SigningSignature → Text → Exec Status Signing
read_request body res_id = do
  signature ← or_fail bad_request body
  sig ← or_fail bad_request (decode_string signature.signature)
  id ← or_fail bad_request (parse_id res_id)
  pure (record { signature = signature; sig = sig; id = id })

-- Reservation.SignatureVerify: the ID and the JSON text are signed. An error is a `false`.
unfoldable pub signature_verify : Env → Reservation → Text → Text → Bool
signature_verify env r pk sig = env.verify pk (format_int r.id ++ r.json) sig

-- The checks that both handlers make: the signer is asked for, is a user, and has signed.
unfoldable pub check_signer : Signing → SigningRequest → Reservation → Exec Status (Unit {0})
unfolding signature_verify
check_signer s request r = do
  guard unauthorized (is_signer s.signature.tid request.signers)
  user ← ask not_found (λ env w. env.find_user w s.signature.tid)
  valid ← (λ env w. (done (signature_verify env r user.pubkey s.sig), w))
  guard unauthorized valid

-- The signature is stored with the time at which it was taken.
unfoldable pub store_signature : Signing → SignatureMode → Exec Status (Unit {0})
store_signature s mode = do
  now ← ask_total (λ env w. env.now w)
  write internal (push_signature s.id mode (record s.signature { epoch = now }))

unfoldable pub sign_provision : Option SigningSignature → Text → Exec Status Success
sign_provision body res_id = do
  s ← read_request body res_id
  r ← load not_found s.id
  guard unauthorized (action_eq r.next_action sign)
  check_signer s r.data_reservation.signing_request_provision r
  store_signature s signature_provision
  r' ← load internal s.id
  when (action_eq r'.next_action deploy) (write_anyway (queue_push (workloads r' [])))
  pure created

unfoldable pub sign_delete : Option SigningSignature → Text → Exec Status Success
sign_delete body res_id = do
  s ← read_request body res_id
  r ← load not_found s.id
  check_signer s r.data_reservation.signing_request_delete r
  store_signature s signature_delete
  r' ← load internal s.id
  if not (action_eq r'.next_action delete) then pure created else do
    set_reservation_deleted r'.id
    write internal (queue_push (workloads r' []))
    pure created
