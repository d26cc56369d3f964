-- ===== src/Http/Server/Guards.antt =====
-- Which requests may change a table.
use chat_back.Prelude.{
  ℕ, Bool, true, false, List, [], ◌∷◌, Option, none, some, ◌&&◌, ◌≡◌, ◌∙◌, ap, arith, refl,
  Option-cases, inl, inr,
}
use chat_back.Text.{Text}
use chat_back.Store.{World, Result, ok, err}
use chat_back.App.UserService
use chat_back.Auth.{validate_token}
use chat_back.Domain.{Uuid}
use chat_back.Postgres.UserRepo.{parse_query}
use chat_back.Http.{Caller, Param, given, absent, malformed}
use chat_back.Http.Messages.Access.{history_authorised}
use chat_back.Http.Server.{AuthRoute, Route, AdminRoute, Moment, Library}
use chat_back.Http.Server.Serve.{serve_auth, serve_route, serve_admin}
use chat_back.Http.Rooms
use chat_back.Http.Messages
use chat_back.Http.Friends
use chat_back.Http.Users
use chat_back.Http.Admin
use chat_back.Http.Admin.{require_admin}
use chat_back.Http.Auth
use chat_back.Http.Auth.{LoginRequest}
use chat_back.Http.Socket

-- The routes whose method is not GET.
abbrev pub is_write : Route → Bool
is_write Route.list_rooms = false
is_write Route.unread = false
is_write (Route.members _) = false
is_write (Route.list_room_invites _) = false
is_write Route.my_invites = false
is_write (Route.history _ _ _) = false
is_write Route.me = false
is_write (Route.search_users _) = false
is_write Route.list_requests = false
is_write Route.list_friends = false
is_write Route.list_dms = false
is_write _ = true

abbrev pub is_register : AuthRoute → Bool
is_register (AuthRoute.register _) = true
is_register _ = false

abbrev pub is_admin_write : AdminRoute → Bool
is_admin_write AdminRoute.all_users = false
is_admin_write AdminRoute.all_rooms = false
is_admin_write (AdminRoute.user_friends _) = false
is_admin_write _ = true

module _ {Color : Type 0} (lib : Library Color) (demo_email : Text) (m : Moment) where
  search_reads :
      (c : Caller) (q : Text) (w : World) → (Friends.search_users lib.ilike c q w).1.db ≡ w.db
  unfolding Friends.search_users
  search_reads c q w = elim (Option-cases (parse_query q)) [
    | inl bad ↦ ground arith
    | inr ((name, tag), parsed) ↦ ground arith
  ]

  members_reads :
      (c : Caller) (p : Param Uuid) (w : World) → (Rooms.members lib.before c p w).1.db ≡ w.db
  unfolding Rooms.members
  members_reads c (given room) w = ground arith
  members_reads c absent w = refl
  members_reads c malformed w = refl

  invites_reads :
      (c : Caller) (p : Param Uuid) (w : World) → (Rooms.list_room_invites c p w).1.db ≡ w.db
  unfolding Rooms.list_room_invites
  invites_reads c (given room) w = ground arith
  invites_reads c absent w = refl
  invites_reads c malformed w = refl

  history_reads :
      (c : Caller) (p cursor : Param Uuid) (limit : Param ℕ) (w : World)
      → (Messages.history lib.jwt.uuid_string c p cursor limit w).1.db ≡ w.db
  unfolding Messages.history
  history_reads c (given room) cursor limit w =
      (history_authorised lib.jwt.uuid_string c room cursor limit w).0
  history_reads c absent cursor limit w = refl
  history_reads c malformed cursor limit w = refl

  pub route_reads :
      (c : Caller) (r : Route) (w : World)
      → is_write r ≡ false
      → (serve_route lib demo_email m c r w).1.db ≡ w.db
  unfolding serve_route Rooms.list Rooms.unread_counts Rooms.members Rooms.list_room_invites
      Rooms.my_invites Users.me Friends.list_requests Friends.list_friends Friends.list_dms
  route_reads c Route.list_rooms w h = ground arith
  route_reads c Route.unread w h = ground arith
  route_reads c (Route.members p) w h = members_reads c p w
  route_reads c (Route.list_room_invites p) w h = invites_reads c p w
  route_reads c Route.my_invites w h = ground arith
  route_reads c (Route.history id cursor limit) w h = history_reads c id cursor limit w
  route_reads c Route.me w h = ground arith
  route_reads c (Route.search_users q) w h = search_reads c q w
  route_reads c Route.list_requests w h = ground arith
  route_reads c Route.list_friends w h = ground arith
  route_reads c Route.list_dms w h = ground arith
  route_reads c _ w h = absurd (ground arith)

  login_reads :
      (req : Param LoginRequest) (w : World)
      → (Auth.login lib.jwt lib.bcrypt m.later req w).1.db ≡ w.db
  unfolding Auth.login Auth.select_by_email
  login_reads (given req) w = ground arith
  login_reads absent w = refl
  login_reads malformed w = refl

  refresh_reads :
      (cookie : Option Text) (w : World) → (Auth.refresh lib.jwt m.later cookie w).1.db ≡ w.db
  unfolding Auth.refresh Auth.select_by_id
  refresh_reads none w = refl
  refresh_reads (some t) w = elim (Option-cases (validate_token lib.jwt m.later t)) [
    | inl bad ↦ ground arith
    | inr (who, valid) ↦ ground arith
  ]

  demo_reads : (w : World) → (Auth.demo lib.jwt demo_email m.now m.later w).1.db ≡ w.db
  unfolding Auth.demo Auth.select_by_email
  demo_reads w = ground arith

  friends_reads :
      (c : Caller) (p : Param Uuid) (w : World)
      → (Admin.list_user_friends lib.before p c w).1.db ≡ w.db
  unfolding Admin.list_user_friends
  friends_reads c (given room) w = ground arith
  friends_reads c absent w = refl
  friends_reads c malformed w = refl

  pub admin_reads :
      (c : Caller) (r : AdminRoute) (w : World)
      → c.is_admin && is_admin_write r ≡ false
      → (serve_admin lib demo_email m c r w).1.db ≡ w.db
  unfolding serve_admin require_admin Admin.list_users Admin.list_rooms
  admin_reads c AdminRoute.all_users w h = ground arith
  admin_reads c AdminRoute.all_rooms w h = ground arith
  admin_reads c (AdminRoute.user_friends p) w h = ground (arith, friends_reads c p w)
  admin_reads c _ w h = ground arith

  pub auth_reads :
      (r : AuthRoute) (w : World)
      → is_register r ≡ false
      → (serve_auth lib demo_email m r w).1.db ≡ w.db
  unfolding serve_auth
  auth_reads (AuthRoute.register req) w h = absurd (ground arith)
  auth_reads (AuthRoute.login req) w h = login_reads req w
  auth_reads (AuthRoute.refresh cookie) w h = refresh_reads cookie w
  auth_reads AuthRoute.demo w h = demo_reads w

  send_avatar_reads : (x : Result (List ℕ × Text) × World) → (Users.send_avatar x).1 ≡ x.1
  send_avatar_reads (ok ([], mime), w) = refl
  send_avatar_reads (ok (b ∷ bs, mime), w) = refl
  send_avatar_reads (err e, w) = refl

  get_avatar_reads : (id : Uuid) (w : World) → (UserService.get_avatar id w).1.db ≡ w.db
  unfolding UserService.get_avatar
  get_avatar_reads id w = ground arith

  pub avatar_reads : (p : Param Uuid) (w : World) → (Users.serve_avatar p w).1.db ≡ w.db
  unfolding Users.serve_avatar
  avatar_reads (given id) w =
      ap (λ (x : World). x.db) (send_avatar_reads (UserService.get_avatar id w))
      ∙ get_avatar_reads id w
  avatar_reads absent w = refl
  avatar_reads malformed w = refl

  pub socket_reads :
      (token : Text) (accepted : Option ℕ) (w : World)
      → (Socket.handle lib.jwt m.later token accepted w).1.db ≡ w.db
  unfolding Socket.handle UserService.get_by_id
  socket_reads token accepted w = elim (Option-cases (validate_token lib.jwt m.later token)) [
    | inl bad ↦ ground arith
    | inr (who, valid) ↦ ground arith
  ]
