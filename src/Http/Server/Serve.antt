-- ===== src/Http/Server/Serve.antt =====
-- `NewServer` of server.go and `applyGlobalMiddleware`: a request on its way through the limits,
-- the token and the handler.
use chat_back.Prelude.{ℕ, Bool, true, false, none, some, if◌then◌else◌}
use chat_back.Text.{Text}
use chat_back.Store.{World}
use chat_back.RateLimit.{TokenBucket}
use chat_back.RateLimit.Client.{rate_limit}
use chat_back.Auth.{authenticate}
use chat_back.Http.{Caller}
use chat_back.Http.Auth
use chat_back.Http.Rooms
use chat_back.Http.Messages
use chat_back.Http.Friends
use chat_back.Http.Users
use chat_back.Http.Admin
use chat_back.Http.Admin.{require_admin}
use chat_back.Http.Socket
use chat_back.Http.Socket.{Outcome, unauthorized, not_upgraded, opened}
use chat_back.Http.Server.{
  AuthRoute, Route, AdminRoute, Endpoint, Incoming, Moment, Library, Limits, Sealed, seal, stop,
  caller_of,
}

module _ {Color : Type 0} (lib : Library Color) (demo_email : Text) (m : Moment) where
  unfoldable pub serve_auth : AuthRoute → World → Sealed × World
  unfolding Auth.register Auth.login Auth.refresh Auth.demo
  serve_auth (AuthRoute.register req) w =
      seal (Auth.register lib.jwt lib.bcrypt m.new_id m.draws m.now m.later req w)
  serve_auth (AuthRoute.login req) w = seal (Auth.login lib.jwt lib.bcrypt m.later req w)
  serve_auth (AuthRoute.refresh cookie) w = seal (Auth.refresh lib.jwt m.later cookie w)
  serve_auth AuthRoute.demo w = seal (Auth.demo lib.jwt demo_email m.now m.later w)

  unfoldable pub serve_route : Caller → Route → World → Sealed × World
  serve_route c Route.list_rooms w = seal (Rooms.list c w)
  serve_route c Route.unread w = seal (Rooms.unread_counts c w)
  serve_route c (Route.mark_read room) w = seal (Rooms.mark_read m.now c room w)
  serve_route c (Route.create_room body) w = seal (Rooms.create m.new_id c body w)
  serve_route c (Route.rename_room id name) w = seal (Rooms.rename c id name w)
  serve_route c (Route.delete_room id) w = seal (Rooms.delete c id w)
  serve_route c (Route.members id) w = seal (Rooms.members lib.before c id w)
  serve_route c (Route.set_member_role id user role) w =
      seal (Rooms.set_member_role c id user role w)
  serve_route c (Route.kick_member id user) w = seal (Rooms.kick_member c id user w)
  serve_route c (Route.invite_user id user) w = seal (Rooms.invite_user m.new_id m.now c id user w)
  serve_route c (Route.list_room_invites id) w = seal (Rooms.list_room_invites c id w)
  serve_route c (Route.accept_invite id) w = seal (Rooms.accept_invite c id w)
  serve_route c (Route.decline_invite id) w = seal (Rooms.decline_invite c id w)
  serve_route c Route.my_invites w = seal (Rooms.my_invites c w)
  serve_route c (Route.history id cursor limit) w =
      seal (Messages.history lib.jwt.uuid_string c id cursor limit w)
  serve_route c (Route.edit_message id body) w = seal (Messages.edit_message m.now c id body w)
  serve_route c (Route.delete_message id) w = seal (Messages.delete_message c id w)
  serve_route c Route.me w = seal (Users.me c w)
  serve_route c (Route.update_profile body) w = seal (Users.update_profile m.now c body w)
  serve_route c (Route.upload_avatar form) w = seal (Users.upload_avatar lib.imaging m.now c form w)
  serve_route c (Route.search_users q) w = seal (Friends.search_users lib.ilike c q w)
  serve_route c (Route.send_request user) w = seal (Friends.send_request m.new_id m.now c user w)
  serve_route c Route.list_requests w = seal (Friends.list_requests c w)
  serve_route c (Route.accept_request id) w = seal (Friends.accept_request m.now c id w)
  serve_route c (Route.remove_friend id) w = seal (Friends.remove c id w)
  serve_route c Route.list_friends w = seal (Friends.list_friends lib.before c w)
  serve_route c (Route.create_dm user) w = seal (Friends.create_dm m.new_id m.now c user w)
  serve_route c Route.list_dms w = seal (Friends.list_dms c w)

  unfoldable pub serve_admin : Caller → AdminRoute → World → Sealed × World
  unfolding require_admin
  serve_admin c AdminRoute.all_users w = seal (require_admin Admin.list_users c w)
  serve_admin c AdminRoute.all_rooms w = seal (require_admin Admin.list_rooms c w)
  serve_admin c (AdminRoute.delete_user id) w = seal (require_admin (Admin.delete_user id) c w)
  serve_admin c (AdminRoute.delete_any_room id) w = seal (require_admin (Admin.delete_room id) c w)
  serve_admin c (AdminRoute.toggle_admin id body) w =
      seal (require_admin (Admin.toggle_admin id body) c w)
  serve_admin c (AdminRoute.rename_any_room id name) w =
      seal (require_admin (Admin.rename_room id name) c w)
  serve_admin c (AdminRoute.user_friends id) w =
      seal (require_admin (Admin.list_user_friends lib.before id) c w)

  abbrev status_of : Outcome → ℕ
  status_of unauthorized = 401
  status_of (not_upgraded s) = s
  status_of (opened _) = 101

  -- `Authenticate` around a handler.
  abbrev guarded : Incoming → (Caller → World → Sealed × World) → World → Sealed × World
  guarded r h w = elim (authenticate lib.jwt m.later r.authorization r.token) [
    | none ↦ (stop 401, w)
    | some who ↦ h (caller_of who) w
  ]

  -- The limits of the routes of `AuthRoute`.
  abbrev limit_of : AuthRoute → Limits → TokenBucket
  limit_of (AuthRoute.register _) l = l.cred
  limit_of (AuthRoute.login _) l = l.cred
  limit_of (AuthRoute.refresh _) l = l.refresh
  limit_of AuthRoute.demo l = l.demo

  abbrev with_limit : AuthRoute → TokenBucket → Limits → Limits
  with_limit (AuthRoute.register _) t l = record l { cred = t }
  with_limit (AuthRoute.login _) t l = record l { cred = t }
  with_limit (AuthRoute.refresh _) t l = record l { refresh = t }
  with_limit AuthRoute.demo t l = record l { demo = t }

  -- What the router does with a request that the global limit lets through.
  unfoldable pub dispatch : Incoming → Endpoint → Limits → World → Sealed × Limits × World
  unfolding serve_auth serve_route serve_admin Socket.handle rate_limit authenticate
  dispatch r (Endpoint.auth route) l w =
      let (t, allowed) = rate_limit lib.split_host_port r.client m.since m.now (limit_of route l) in
      let l' = with_limit route t l in
      if allowed then (let (s, w') = serve_auth route w in (s, l', w')) else (stop 429, l', w)
  dispatch r (Endpoint.protected route) l w =
      let (s, w') = guarded r (λ c. serve_route c route) w in (s, l, w')
  dispatch r (Endpoint.admin route) l w =
      let (s, w') = guarded r (λ c. serve_admin c route) w in (s, l, w')
  dispatch r (Endpoint.avatar id) l w = let (s, w') = seal (Users.serve_avatar id w) in (s, l, w')
  dispatch r (Endpoint.socket accepted) l w =
      let (o, w') = Socket.handle lib.jwt m.later r.token accepted w in (stop (status_of o), l, w')
  dispatch r Endpoint.health l w = (stop 200, l, w)
  dispatch r Endpoint.preflight l w = (stop 204, l, w)

  abbrev pub is_preflight : Endpoint → Bool
  is_preflight Endpoint.preflight = true
  is_preflight _ = false

  -- `OPTIONS` is answered before the limit.
  unfoldable pub serve : Incoming → Limits → World → Sealed × Limits × World
  unfolding dispatch rate_limit
  serve r l w =
      let (t, allowed) = rate_limit lib.split_host_port r.client m.since m.now l.global in
      if is_preflight r.endpoint
      then (stop 204, l, w)
      else if allowed
      then dispatch r r.endpoint (record l { global = t }) w
      else (stop 429, record l { global = t }, w)
