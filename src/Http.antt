-- ===== src/Http.antt =====
-- internal/adapter/inbound/http: what the handlers share. A handler takes what the router, the
-- JWT middleware, `uuid.Parse`, `strconv.Atoi` and `encoding/json` make of the request, and
-- answers with a status, a body and the frames that it gives to `Hub.PublishToRoom`.
pub mod Messages
pub mod Rooms
pub mod Auth
pub mod Friends
pub mod Users
pub mod Admin
pub mod Socket
pub mod Server
use Prim.Native.String.{String}
use chat_back.Prelude.{ℕ, Bool, List, [], ◌∷◌, Option}
use chat_back.Domain.{Uuid, Error, not_found, forbidden, bad_request}
use chat_back.Store.{World}
use chat_back.Ws.Protocol.{ServerMessage, ErrorText, literal, rendered}

-- The claims of the request's token.
pub record Caller : Type 0 where
  pub user_id : Uuid
  pub is_admin : Bool

-- A path value, a query value or a body: `absent` for the empty string.
pub data Param (A : Type 0) : Type 0 where
  absent malformed : Param A
  given : A → Param A

pub data Body (A : Type 0) : Type 0 where
  no_body : Body A
  payload : A → Body A
  failure : ErrorText → Body A

pub record Response (A : Type 0) : Type 0 where
  pub status : ℕ
  pub body : Body A
  pub published : List (Uuid × ServerMessage)

abbrev pub answer : {A : Type 0} → ℕ → A → Response A
answer status a = record { status = status; body = payload a; published = [] }

abbrev pub no_content : {A : Type 0} → Response A
no_content = record { status = 204; body = no_body; published = [] }

-- `writeJSON(w, status, errBody(msg))`
abbrev pub fail : {A : Type 0} → ℕ → ErrorText → Response A
fail status text = record { status = status; body = failure text; published = [] }

-- `PublishToRoom(ctx, room, data)`, whose error is dropped.
abbrev pub publishing : {A : Type 0} → Uuid → ServerMessage → Response A → Response A
publishing room m r = record r { published = (room, m) ∷ r.published }

-- The chains of `errors.Is`, by the errors that a handler tells apart.
abbrev pub fail_internal : {A : Type 0} → Error → Response A
fail_internal e = fail 500 (literal "internal")

abbrev pub fail_bad_request : {A : Type 0} → Error → Response A
fail_bad_request bad_request = fail 400 (rendered bad_request)
fail_bad_request e = fail_internal e

abbrev pub fail_forbidden : {A : Type 0} → Error → Response A
fail_forbidden forbidden = fail 403 (literal "forbidden")
fail_forbidden e = fail_internal e

abbrev pub fail_not_found : {A : Type 0} → Error → Response A
fail_not_found not_found = fail 404 (literal "not found")
fail_not_found e = fail_internal e

abbrev pub fail_forbidden_not_found : {A : Type 0} → Error → Response A
fail_forbidden_not_found forbidden = fail 403 (literal "forbidden")
fail_forbidden_not_found e = fail_not_found e

abbrev pub fail_any : {A : Type 0} → Error → Response A
fail_any bad_request = fail 400 (rendered bad_request)
fail_any e = fail_forbidden_not_found e
