-- ===== src/Http/Server/Sound/Requests.antt =====
-- What every request through server.go keeps true of the tables: admins' requests, registration and
-- the whole way.
use chat_back.Prelude.{Bool, ◌||◌, arith, refl, Bool-cases, Option-cases, inl, inr, subst, sym}
use chat_back.Text.{Text, is_empty, trim_space}
use chat_back.Domain.{Uuid}
use chat_back.Store.{UserRow, World, Result-cases, call}
use chat_back.Auth.{Jwt, authenticate}
use chat_back.Auth.Tag.{generate_unique_tag, generate_unique_tag_keeps}
use chat_back.App.Sound.{IsSound, IsBrief}
use chat_back.App.Sound.Statements
use chat_back.Postgres.UserRepo.{new_user, insert_user}
use chat_back.Http.{Caller, Param, given, absent, malformed}
use chat_back.Http.Admin
use chat_back.Http.Admin.{require_admin}
use chat_back.Http.Auth
use chat_back.Http.Auth.{RegisterRequest, Bcrypt}
use chat_back.Http.Server.{
  AuthRoute, Route, AdminRoute, Endpoint, auth, protected, admin, Incoming, Moment, Library, Limits,
  caller_of,
}
use chat_back.Http.Server.Serve.{
  is_preflight, serve, dispatch, serve_auth, serve_route, serve_admin,
}
use chat_back.Http.Server.Guards.{route_reads, admin_reads}
use chat_back.Http.Server.Access.{dispatch_keeps}
use chat_back.RateLimit.Client.{rate_limit}
use chat_back.Http.Server.Sound.{
  mark_read-Sound, create-Sound, rename-Sound, delete-Sound, accept_invite-Sound,
  decline_invite-Sound, accept_request-Sound, remove-Sound, send_request-Sound, create_dm-Sound,
  kick_member-Sound, invite_user-Sound, edit_message-Sound, set_member_role-Sound,
  delete_message-Sound, update_profile-Sound, upload_avatar-Sound,
}

module _ {Color : Type 0} (lib : Library Color) (demo_email : Text) (m : Moment) where
  delete_user-Sound :
      (c : Caller) (p : Param Uuid) (w : World)
      → IsSound w.db
      → IsSound (Admin.delete_user p c w).1.db
  unfolding Admin.delete_user
  delete_user-Sound c (given id) w s = ground (arith, Statements.delete_user-Keeps id w s)
  delete_user-Sound c absent w s = s
  delete_user-Sound c malformed w s = s

  delete_room-Sound :
      (c : Caller) (p : Param Uuid) (w : World)
      → IsSound w.db
      → IsSound (Admin.delete_room p c w).1.db
  unfolding Admin.delete_room
  delete_room-Sound c (given id) w s = ground (arith, Statements.delete_room-Keeps id w s)
  delete_room-Sound c absent w s = s
  delete_room-Sound c malformed w s = s

  toggle_admin-Sound :
      (c : Caller) (p : Param Uuid) (q : Param Bool) (w : World)
      → IsSound w.db
      → IsSound (Admin.toggle_admin p q c w).1.db
  unfolding Admin.toggle_admin
  toggle_admin-Sound c (given id) (given b) w s =
      ground (arith, Statements.set_admin-Keeps id b w s)
  toggle_admin-Sound c (given id) absent w s = ground arith
  toggle_admin-Sound c (given id) malformed w s = ground arith
  toggle_admin-Sound c absent q w s = s
  toggle_admin-Sound c malformed q w s = s

  rename_room-Sound :
      (c : Caller) (p : Param Uuid) (q : Param Text) (w : World)
      → IsSound w.db
      → IsSound (Admin.rename_room p q c w).1.db
  unfolding Admin.rename_room
  rename_room-Sound c (given id) (given name) w s = elim (Bool-cases (is_empty (trim_space name))) [
    | inl blank ↦ ground arith
    | inr named ↦ ground (arith, Statements.rename_any-Keeps id (trim_space name) named w s)
  ]
  rename_room-Sound c (given id) absent w s = s
  rename_room-Sound c (given id) malformed w s = s
  rename_room-Sound c absent q w s = s
  rename_room-Sound c malformed q w s = s

  admin-Sound :
      (c : Caller) (r : AdminRoute) (w : World)
      → IsSound w.db
      → IsSound (serve_admin lib demo_email m c r w).1.db
  unfolding serve_admin require_admin
  admin-Sound c (AdminRoute.delete_user p) w s = ground (arith, delete_user-Sound c p w s)
  admin-Sound c (AdminRoute.delete_any_room p) w s = ground (arith, delete_room-Sound c p w s)
  admin-Sound c (AdminRoute.toggle_admin p q) w s = ground (arith, toggle_admin-Sound c p q w s)
  admin-Sound c (AdminRoute.rename_any_room p q) w s = ground (arith, rename_room-Sound c p q w s)
  admin-Sound c AdminRoute.all_users w s =
      subst IsSound (sym (admin_reads lib demo_email m c AdminRoute.all_users w (ground arith))) s
  admin-Sound c AdminRoute.all_rooms w s =
      subst IsSound (sym (admin_reads lib demo_email m c AdminRoute.all_rooms w (ground arith))) s
  admin-Sound c (AdminRoute.user_friends p) w s =
      subst IsSound
        (sym (admin_reads lib demo_email m c (AdminRoute.user_friends p) w (ground arith))) s

  after_insert-Sound :
      (j : Jwt) (b : Bcrypt) (u : UserRow) (w : World)
      → IsBrief u.display_name
      → IsSound w.db
      → IsSound (Auth.after_insert j b m.later u.id u.username (call (insert_user u) w)).1.db
  after_insert-Sound j b u w brief s = ground (arith, Statements.insert_user-Keeps u brief w s)

  register-Sound :
      (p : Param RegisterRequest) (w : World)
      → IsSound w.db
      → IsSound (Auth.register lib.jwt lib.bcrypt m.new_id m.draws m.now m.later p w).1.db
  unfolding Auth.register
  register-Sound (given req) w s =
      elim (Bool-cases (is_empty req.username || is_empty req.email || is_empty req.password)) [
        | inl blank ↦ ground arith
        | inr filled ↦ elim (Option-cases (lib.bcrypt.hash req.password)) [
          | inl failed ↦ ground arith
          | inr (hash, hashed) ↦
              let w' = (generate_unique_tag m.draws w).1 in
              let s' : IsSound w'.db =
                subst IsSound (sym (generate_unique_tag_keeps m.draws w)) s in
              elim (Result-cases (generate_unique_tag m.draws w).0) [
                | inr (e, failed) ↦ ground arith
                | inl (tag, found) ↦
                    let u = new_user m.now m.new_id req.username req.email hash tag in
                    ground (arith, after_insert-Sound lib.jwt lib.bcrypt u w' tt s')
              ]
        ]
      ]
  register-Sound absent w s = s
  register-Sound malformed w s = s

  route-Sound :
      (c : Caller) (r : Route) (w : World)
      → IsSound w.db
      → IsSound (serve_route lib demo_email m c r w).1.db
  unfolding serve_route
  route-Sound c (Route.mark_read p) w s = mark_read-Sound lib demo_email m c p w s
  route-Sound c (Route.create_room p) w s = create-Sound lib demo_email m c p w s
  route-Sound c (Route.rename_room p q) w s = rename-Sound lib demo_email m c p q w s
  route-Sound c (Route.delete_room p) w s = delete-Sound lib demo_email m c p w s
  route-Sound c (Route.set_member_role p q r) w s =
      set_member_role-Sound lib demo_email m c p q r w s
  route-Sound c (Route.kick_member p q) w s = kick_member-Sound lib demo_email m c p q w s
  route-Sound c (Route.invite_user p q) w s = invite_user-Sound lib demo_email m c p q w s
  route-Sound c (Route.accept_invite p) w s = accept_invite-Sound lib demo_email m c p w s
  route-Sound c (Route.decline_invite p) w s = decline_invite-Sound lib demo_email m c p w s
  route-Sound c (Route.edit_message p q) w s = edit_message-Sound lib demo_email m c p q w s
  route-Sound c (Route.delete_message p) w s = delete_message-Sound lib demo_email m c p w s
  route-Sound c (Route.update_profile p) w s = update_profile-Sound lib demo_email m c p w s
  route-Sound c (Route.upload_avatar f) w s = upload_avatar-Sound lib demo_email m c f w s
  route-Sound c (Route.send_request p) w s = send_request-Sound lib demo_email m c p w s
  route-Sound c (Route.accept_request p) w s = accept_request-Sound lib demo_email m c p w s
  route-Sound c (Route.remove_friend p) w s = remove-Sound lib demo_email m c p w s
  route-Sound c (Route.create_dm p) w s = create_dm-Sound lib demo_email m c p w s
  route-Sound c r w s = subst IsSound (sym (route_reads lib demo_email m c r w refl)) s

  dispatch-Sound :
      (r : Incoming) (e : Endpoint) (l : Limits) (w : World)
      → IsSound w.db
      → IsSound (dispatch lib demo_email m r e l w).2.db
  unfolding dispatch serve_auth
  dispatch-Sound r (auth (AuthRoute.register p)) l w s = ground (arith, register-Sound p w s)
  dispatch-Sound r (protected route) l w s =
      elim (Option-cases (authenticate lib.jwt m.later r.authorization r.token)) [
        | inl unknown ↦ ground arith
        | inr (i, known) ↦ ground (arith, route-Sound (caller_of i) route w s)
      ]
  dispatch-Sound r (admin route) l w s =
      elim (Option-cases (authenticate lib.jwt m.later r.authorization r.token)) [
        | inl unknown ↦ ground arith
        | inr (i, known) ↦ ground (arith, admin-Sound (caller_of i) route w s)
      ]
  dispatch-Sound r e l w s = subst IsSound (sym (dispatch_keeps lib demo_email m r e l w refl)) s

  -- Whichever calls do not reach the database, tables in which every room but a DM has a name, nobody is asked to
  -- be their own friend, no message is empty and no display name is longer than 32 characters are
  -- such tables after any request to the server.
  pub serve-IsSound :
      (r : Incoming) (l : Limits) (w : World)
      → IsSound w.db
      → IsSound (serve lib demo_email m r l w).2.db
  unfolding serve
  serve-IsSound r l w s = elim (Bool-cases (is_preflight lib demo_email m r.endpoint)) [
    | inl asked ↦ rw (serve, asked) s
    | inr other ↦
        elim (Bool-cases (rate_limit lib.split_host_port r.client m.since m.now l.global).1) [
          | inl allowed ↦ rw (serve, other, allowed) (dispatch-Sound r r.endpoint _ w s)
          | inr limited ↦ rw (serve, other, limited) s
        ]
  ]
