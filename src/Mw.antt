-- ===== src/Mw.antt =====
-- mw/action.go: the responses of the handlers.

use tfexplorer.Base.{ℕ, Option, none, some}
use tfexplorer.Program.{Outcome, done, failed}

-- The responses that carry an error: mw.BadRequest, UnAuthorized, NotFound, Conflict, Forbidden,
-- mw.Error, and mw.Error with StatusFailedDependency. A handler that panics gives none.
pub data Status : Type 0 where
  bad_request unauthorized not_found conflict forbidden internal failed_dependency panicked : Status

-- A response without an error and without a body: nil or mw.Ok(), which are 200, or mw.Created().
pub data Success : Type 0 where
  ok created : Success

-- The status code of a response with an error; `none` for a handler that panics.
unfoldable pub status_code : Status → Option ℕ
status_code bad_request = some 400
status_code unauthorized = some 401
status_code forbidden = some 403
status_code not_found = some 404
status_code conflict = some 409
status_code failed_dependency = some 424
status_code internal = some 500
status_code panicked = none

unfoldable pub success_code : Success → ℕ
success_code ok = 200
success_code created = 201

-- What the client receives: the object of the handler, or the text of an error in its place.
pub data Body (A : Type 0) : Type 0 where
  object : A → Body A
  error_body : Body A

abbrev with_code : {A : Type 0} → Option ℕ → Option (ℕ × Body A)
with_code none = none
with_code (some code) = some (code, error_body)

-- AsHandlerFunc on what an action has come to: the status code and the body.
unfoldable pub as_handler_func : {A : Type 0} → Success → Outcome Status A → Option (ℕ × Body A)
unfolding status_code success_code
as_handler_func s (done a) = some (success_code s, object a)
as_handler_func s (failed e) = with_code (status_code e)
