-- ===== src/Http/Server/Sound.antt =====
-- What every request through server.go keeps true of the tables: the handlers behind the token.
pub mod Requests
use chat_back.Prelude.{
  ℕ, Bool, true, false, List, [], ◌∷◌, Option, none, some, ◌≡◌, ◌≤◌, ◌==◌, ◌||◌, if◌then◌else◌,
  arith, refl, length, ltb, Bool-cases, Option-cases, inl, inr,
}
use chat_back.Text.{Text, is_empty, trim_space}
use chat_back.Domain.{Uuid, Time, RoomType, MemberRole, Room, Error, uuid_nil, User, Message}
use chat_back.Store.{World, Result, Result-cases, ok, err, call}
use chat_back.Auth.{authenticate}
use chat_back.Auth.Tag.{generate_unique_tag, generate_unique_tag_keeps}
use chat_back.App.RoomService
use chat_back.App.MessageService
use chat_back.App.FriendService
use chat_back.App.UserService
use chat_back.App.Sound.{IsSound}
use chat_back.App.Sound.Services
use chat_back.App.Sound.Statements
use chat_back.Postgres.UserRepo
use chat_back.Postgres.AdminRepo
use chat_back.Http.{Caller, Param, given, absent, malformed, Response}
use chat_back.Http.Rooms.{respond, respond_empty}
use chat_back.Http.Rooms
use chat_back.Http.Messages
use chat_back.Http.Friends
use chat_back.Http.Users
use chat_back.Http.Users.{AvatarForm, too_large, no_file, file}
use chat_back.Http.Users.Resize.{resize_to_128}
use chat_back.Http.Admin
use chat_back.Http.Admin.{require_admin}
use chat_back.Http.Auth
use chat_back.Http.Auth.{RegisterRequest}
use chat_back.Http.Server.{
  AuthRoute, Route, AdminRoute, Endpoint, auth, protected, admin, avatar, socket, health, preflight,
  Incoming, Moment, Library, Limits, Sealed, seal, caller_of,
}
use chat_back.Http.Server.Serve.{
  is_preflight, serve, dispatch, serve_auth, serve_route, serve_admin,
}
use chat_back.Http.Server.Guards.{
  is_write, is_register, is_admin_write, route_reads, admin_reads, auth_reads,
}
use chat_back.Http.Server.Access.{may_change, serve_keeps}
use chat_back.RateLimit.Client.{rate_limit}

-- An answer leaves the world of the result.
respond_empty_world :
    (f : Error → Response (Unit {0})) (x : Result (Unit {0}) × World) → (respond_empty f x).1 ≡ x.1
respond_empty_world f (ok a, w) = refl
respond_empty_world f (err e, w) = refl

module _ {Color : Type 0} (lib : Library Color) (demo_email : Text) (m : Moment) where
  -- A handler, whatever of its request is there.
  abbrev pub Sound : {A : Type 0} → (World → Response A × World) → Type 0
  Sound h = (w : World) → IsSound w.db → IsSound (h w).1.db

  pub mark_read-Sound : (c : Caller) (p : Param Uuid) → Sound (Rooms.mark_read m.now c p)
  unfolding Rooms.mark_read RoomService.mark_room_read
  mark_read-Sound c (given room) w s =
      rw (respond_empty_world _ (RoomService.mark_room_read m.now c.user_id room w))
        (Statements.mark_room_read-Keeps m.now c.user_id room w s)
  mark_read-Sound c absent w s = s
  mark_read-Sound c malformed w s = s

  pub create-Sound : (c : Caller) (p : Param (Text × RoomType)) → Sound (Rooms.create m.new_id c p)
  unfolding Rooms.create
  create-Sound c (given (name, type)) w s =
      ground (arith, Services.create-Keeps m.new_id name (Rooms.type_or_public type) c.user_id w s)
  create-Sound c absent w s = s
  create-Sound c malformed w s = s

  pub rename-Sound : (c : Caller) (p : Param Uuid) (q : Param Text) → Sound (Rooms.rename c p q)
  unfolding Rooms.rename
  rename-Sound c (given id) (given name) w s =
      ground (arith, Services.rename-Keeps id c.user_id name c.is_admin w s)
  rename-Sound c (given id) absent w s = s
  rename-Sound c (given id) malformed w s = s
  rename-Sound c absent q w s = s
  rename-Sound c malformed q w s = s

  pub delete-Sound : (c : Caller) (p : Param Uuid) → Sound (Rooms.delete c p)
  unfolding Rooms.delete
  delete-Sound c (given id) w s =
      ground (arith, Services.delete_room-Keeps id c.user_id c.is_admin w s)
  delete-Sound c absent w s = s
  delete-Sound c malformed w s = s

  pub accept_invite-Sound : (c : Caller) (p : Param Uuid) → Sound (Rooms.accept_invite c p)
  unfolding Rooms.accept_invite
  accept_invite-Sound c (given id) w s =
      ground (arith, Services.accept_invite-Keeps id c.user_id w s)
  accept_invite-Sound c absent w s = s
  accept_invite-Sound c malformed w s = s

  pub decline_invite-Sound : (c : Caller) (p : Param Uuid) → Sound (Rooms.decline_invite c p)
  unfolding Rooms.decline_invite
  decline_invite-Sound c (given id) w s =
      ground (arith, Services.decline_invite-Keeps id c.user_id w s)
  decline_invite-Sound c absent w s = s
  decline_invite-Sound c malformed w s = s

  pub accept_request-Sound :
      (c : Caller) (p : Param Uuid) → Sound (Friends.accept_request m.now c p)
  unfolding Friends.accept_request FriendService.accept
  accept_request-Sound c (given id) w s =
      ground (arith, Statements.accept_friend-Keeps m.now id c.user_id w s)
  accept_request-Sound c absent w s = s
  accept_request-Sound c malformed w s = s

  pub remove-Sound : (c : Caller) (p : Param Uuid) → Sound (Friends.remove c p)
  unfolding Friends.remove FriendService.remove
  remove-Sound c (given id) w s = ground (arith, Statements.remove_friend-Keeps id c.user_id w s)
  remove-Sound c absent w s = s
  remove-Sound c malformed w s = s

  pub send_request-Sound :
      (c : Caller) (p : Param Uuid) → Sound (Friends.send_request m.new_id m.now c p)
  unfolding Friends.send_request
  send_request-Sound c (given id) w s =
      ground (arith, Services.send_request-Keeps m.new_id m.now c.user_id id w s)
  send_request-Sound c absent w s = s
  send_request-Sound c malformed w s = s

  pub create_dm-Sound : (c : Caller) (p : Param Uuid) → Sound (Friends.create_dm m.new_id m.now c p)
  unfolding Friends.create_dm
  create_dm-Sound c (given id) w s =
      ground (arith, Services.get_or_create_dm-Keeps m.new_id m.now c.user_id id w s)
  create_dm-Sound c absent w s = s
  create_dm-Sound c malformed w s = s

  pub kick_member-Sound :
      (c : Caller) (p : Param Uuid) (q : Param Uuid) → Sound (Rooms.kick_member c p q)
  unfolding Rooms.kick_member
  kick_member-Sound c (given id) (given x) w s =
      ground (arith, Services.kick_member-Keeps id c.user_id x w s)
  kick_member-Sound c (given id) absent w s = s
  kick_member-Sound c (given id) malformed w s = s
  kick_member-Sound c absent q w s = s
  kick_member-Sound c malformed q w s = s

  pub invite_user-Sound :
      (c : Caller) (p : Param Uuid) (q : Param Uuid)
      → Sound (Rooms.invite_user m.new_id m.now c p q)
  unfolding Rooms.invite_user
  invite_user-Sound c (given id) (given x) w s =
      ground (arith, Services.invite_user-Keeps m.new_id m.now id c.user_id x w s)
  invite_user-Sound c (given id) absent w s = s
  invite_user-Sound c (given id) malformed w s = s
  invite_user-Sound c absent q w s = s
  invite_user-Sound c malformed q w s = s

  pub edit_message-Sound :
      (c : Caller) (p : Param Uuid) (q : Param Text) → Sound (Messages.edit_message m.now c p q)
  unfolding Messages.edit_message
  edit_message-Sound c (given id) (given x) w s =
      ground (arith, Services.edit-Keeps m.now id c.user_id x w s)
  edit_message-Sound c (given id) absent w s = s
  edit_message-Sound c (given id) malformed w s = s
  edit_message-Sound c absent q w s = s
  edit_message-Sound c malformed q w s = s

  pub set_member_role-Sound :
      (c : Caller) (p q : Param Uuid) (r : Param MemberRole) → Sound (Rooms.set_member_role c p q r)
  unfolding Rooms.set_member_role
  set_member_role-Sound c (given id) (given user) (given role) w s =
      ground (arith, Services.set_role-Keeps id c.user_id user role w s)
  set_member_role-Sound c (given id) (given user) absent w s = s
  set_member_role-Sound c (given id) (given user) malformed w s = s
  set_member_role-Sound c (given id) absent r w s = s
  set_member_role-Sound c (given id) malformed r w s = s
  set_member_role-Sound c absent q r w s = s
  set_member_role-Sound c malformed q r w s = s

  pub do_delete-Sound : (id : Uuid) (x : Message) → Sound (Messages.do_delete id x)
  unfolding Messages.do_delete MessageService.delete_by_id
  do_delete-Sound id x w s = Statements.delete_message-Keeps id w s

  pub delete_found-Sound :
      (c : Caller) (id : Uuid) (x : Message) → Sound (Messages.delete_found c id x)
  unfolding Messages.delete_found RoomService.get_member_role
  delete_found-Sound c id x w s =
      let w' = (RoomService.get_member_role x.room_id c.user_id w).1 in
      ground (arith, do_delete-Sound id x w s, do_delete-Sound id x w' (ground arith))

  pub delete_message-Sound : (c : Caller) (p : Param Uuid) → Sound (Messages.delete_message c p)
  unfolding Messages.delete_message
  delete_message-Sound c (given id) w s = elim (Result-cases (MessageService.get_by_id id w).0) [
    | inl (x, found) ↦
        let w' = (MessageService.get_by_id id w).1 in
        ground
          (arith, delete_found-Sound c id x w' (unfold MessageService.get_by_id in ground arith))
    | inr (e, failed) ↦ unfold MessageService.get_by_id in ground arith
  ]
  delete_message-Sound c absent w s = s
  delete_message-Sound c malformed w s = s

  pub update_profile-Sound : (c : Caller) (p : Param Text) → Sound (Users.update_profile m.now c p)
  unfolding Users.update_profile UserService.update_profile UserService.get_by_id
  update_profile-Sound c (given name) w s = elim (Bool-cases (ltb 32 (length (trim_space name)))) [
    | inl long ↦ ground arith
    | inr short ↦ ground (
      arith,
      Statements.update_profile-Keeps m.now c.user_id (trim_space name) (ground arith) w s,
    )
  ]
  update_profile-Sound c absent w s = s
  update_profile-Sound c malformed w s = s

  pub upload_avatar-Sound :
      (c : Caller) (f : AvatarForm) → Sound (Users.upload_avatar lib.imaging m.now c f)
  unfolding Users.upload_avatar UserService.save_avatar
  upload_avatar-Sound c too_large w s = s
  upload_avatar-Sound c no_file w s = s
  upload_avatar-Sound c (file type content) w s = elim (Option-cases (lib.imaging.decode content)) [
    | inl bad ↦ ground arith
    | inr (img, decoded) ↦
        elim (Option-cases
          (lib.imaging.encode (resize_to_128 lib.imaging.nrgba lib.imaging.blank img))) [
            | inl failed ↦ ground arith
            | inr (bytes, encoded) ↦
                ground (arith, Statements.save_avatar-Keeps m.now c.user_id bytes Users.jpeg w s)
          ]
  ]
