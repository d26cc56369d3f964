-- ===== src/Http/Server.antt =====
-- internal/adapter/inbound/http/server.go and middleware.go: the routes, what stands before each of
-- them, and how a request goes through. The router of `net/http`, the parsing of a request and the
-- JSON of an answer are not the program's: a request is its route, with what the handler reads of
-- it, and an answer is sealed to its status and the frames that were published.
pub mod Serve
pub mod Guards
pub mod Access
pub mod Sound
use chat_back.Prelude.{
  ℕ, ◌*◌, Bool, true, false, List, [], ◌∷◌, Option, none, some, if◌then◌else◌, map,
}
use chat_back.Text.{Text, text_eq, is_empty}
use chat_back.Domain.{Uuid, Time, RoomType, MemberRole}
use chat_back.Store.{World}
use chat_back.Store.Sort.{Collation}
use chat_back.Ws.Protocol.{ServerMessage}
use chat_back.RateLimit.{TokenBucket, new_token_bucket}
use chat_back.RateLimit.Client.{Request, rate_limit}
use chat_back.Auth.{Jwt, Identity, second, authenticate}
use chat_back.Auth.Tokens.{minute}
use chat_back.Http.{Caller, Param, Response}
use chat_back.Http.Auth
use chat_back.Http.Auth.{Bcrypt, RegisterRequest, LoginRequest}
use chat_back.Http.Rooms
use chat_back.Http.Messages
use chat_back.Http.Friends
use chat_back.Http.Users
use chat_back.Http.Users.{Imaging, AvatarForm}
use chat_back.Http.Admin
use chat_back.Http.Admin.{require_admin}

-- The routes without a token, under a limit of their own.
pub data AuthRoute : Type 0 where
  register : Param RegisterRequest → AuthRoute
  login : Param LoginRequest → AuthRoute
  refresh : Option Text → AuthRoute
  demo : AuthRoute

-- The routes behind `Authenticate`, in the order of server.go.
pub data Route : Type 0 where
  list_rooms unread : Route
  mark_read : Param Uuid → Route
  create_room : Param (Text × RoomType) → Route
  rename_room : Param Uuid → Param Text → Route
  delete_room members : Param Uuid → Route
  set_member_role : Param Uuid → Param Uuid → Param MemberRole → Route
  kick_member invite_user : Param Uuid → Param Uuid → Route
  list_room_invites accept_invite decline_invite : Param Uuid → Route
  my_invites : Route
  history : Param Uuid → Param Uuid → Param ℕ → Route
  edit_message : Param Uuid → Param Text → Route
  delete_message : Param Uuid → Route
  me : Route
  update_profile : Param Text → Route
  upload_avatar : AvatarForm → Route
  search_users : Text → Route
  send_request : Param Uuid → Route
  list_requests : Route
  accept_request remove_friend : Param Uuid → Route
  list_friends : Route
  create_dm : Param Uuid → Route
  list_dms : Route

-- The routes behind `requireAdmin` as well.
pub data AdminRoute : Type 0 where
  all_users all_rooms : AdminRoute
  delete_user delete_any_room : Param Uuid → AdminRoute
  toggle_admin : Param Uuid → Param Bool → AdminRoute
  rename_any_room : Param Uuid → Param Text → AdminRoute
  user_friends : Param Uuid → AdminRoute

pub data Endpoint : Type 0 where
  auth : AuthRoute → Endpoint
  protected : Route → Endpoint
  admin : AdminRoute → Endpoint
  avatar : Param Uuid → Endpoint
  -- With what `websocket.Accept` does.
  socket : Option ℕ → Endpoint
  health preflight : Endpoint

pub record Incoming : Type 0 where
  pub endpoint : Endpoint
  pub client : Request
  pub authorization : Text
  pub token : Text
  pub origin : Text

-- What a request finds of the clock, of `uuid.New()` and of `rand`.
pub record Moment : Type 0 where
  pub since : ℕ
  pub now : Time
  pub later : Time
  pub new_id : Uuid
  pub draws : List ℕ

-- What the server takes of other libraries and of the database's collation.
pub record Library (Color : Type 0) : Type 0 where
  pub jwt : Jwt
  pub bcrypt : Bcrypt
  pub imaging : Imaging Color
  pub before : Collation
  pub ilike : Text → Text → Bool
  pub split_host_port : Text → Option Text

pub record Limits : Type 0 where
  pub global : TokenBucket
  pub cred : TokenBucket
  pub refresh : TokenBucket
  pub demo : TokenBucket

abbrev pub limits : Limits
limits = record {
  global = new_token_bucket 200 300000000;
  cred = new_token_bucket 5 (3 * minute);
  refresh = new_token_bucket 30 (2 * second);
  demo = new_token_bucket 20 minute;
}

pub record Sealed : Type 0 where
  pub status : ℕ
  pub published : List (Uuid × ServerMessage)

abbrev pub seal : {A : Type 0} → Response A × World → Sealed × World
seal (r, w) = (record { status = r.status; published = r.published }, w)

abbrev pub stop : ℕ → Sealed
stop status = record { status = status; published = [] }

abbrev pub caller_of : Identity → Caller
caller_of i = record { user_id = i.user_id; is_admin = i.is_admin }

-- The first allowed origin that is the request's goes into the header.
unfoldable pub allow_origin : List Text → Text → Option Text
unfolding text_eq
allow_origin [] origin = none
allow_origin (allowed ∷ rest) origin =
    let found = allow_origin rest origin in if text_eq origin allowed then some origin else found
