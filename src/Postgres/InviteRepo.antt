-- ===== src/Postgres/InviteRepo.antt =====
-- internal/adapter/outbound/postgres/invite_repo.go.
use chat_back.Prelude.{
  Bool, not, List, [], ◌∷◌, Option, none, some, ◌==◌, ◌&&◌, if◌then◌else◌, exists_row, find_row,
  select, update_where, collect,
}
use chat_back.Domain.{
  Uuid, not_found, driver, foreign_key_violation, unique_violation, room_invites_pkey,
  room_invites_room_id_invitee_id_key, Room, RoomInvite, InviteStatus, accepted, declined,
  is_pending,
}
use chat_back.Store.{
  UserRow, InviteRow, Db, Result, ok, err, Query, call, read, has_user, has_room, timestamptz,
}
use chat_back.Store.Order.{order_by}
use chat_back.Postgres.RoomRepo.{room_with, or_not_found}

abbrev row_of : RoomInvite → InviteRow
row_of i = record {
  id = i.id;
  room_id = i.room_id;
  inviter_id = i.inviter_id;
  invitee_id = i.invitee_id;
  status = i.status;
  created_at = timestamptz i.created_at;
}

unfoldable pub insert_invite : RoomInvite → Db → Result (Unit {0}) × Db
unfolding timestamptz
insert_invite i db =
    if exists_row (λ (r : InviteRow). r.id == i.id) db.room_invites
    then (err (driver (unique_violation room_invites_pkey)), db)
    else if exists_row (λ (r : InviteRow). r.room_id == i.room_id && r.invitee_id == i.invitee_id)
        db.room_invites
    then (err (driver (unique_violation room_invites_room_id_invitee_id_key)), db)
    else if not (has_room i.room_id db && has_user i.inviter_id db && has_user i.invitee_id db)
    then (err (driver foreign_key_violation), db)
    else (ok tt, record db { room_invites = row_of i ∷ db.room_invites })

unfoldable pub create : RoomInvite → Query (Unit {0})
unfolding insert_invite
create i = call (insert_invite i)

abbrev pub user_with : Uuid → Db → Option UserRow
user_with id db = find_row (λ (u : UserRow). u.id == id) db.users

abbrev pub invite_with : Uuid → Db → Option InviteRow
invite_with id db = find_row (λ (r : InviteRow). r.id == id) db.room_invites

-- The three inner joins: an invite whose room, inviter or invitee is gone is not found.
joined : InviteRow → Option Room → Option UserRow → Option UserRow → Option RoomInvite
joined r none inviter invitee = none
joined r (some room) none invitee = none
joined r (some room) (some inviter) none = none
joined r (some room) (some inviter) (some invitee) = some (record {
  id = r.id;
  room_id = r.room_id;
  inviter_id = r.inviter_id;
  invitee_id = r.invitee_id;
  status = r.status;
  created_at = r.created_at;
  room_name = room.name;
  inviter_username = inviter.username;
  invitee_username = invitee.username;
})

unfoldable pub full_invite : Uuid → Db → Option RoomInvite
unfolding joined
full_invite id db = elim (invite_with id db) [
  | none ↦ none
  | some r ↦
      joined r (room_with r.room_id db) (user_with r.inviter_id db) (user_with r.invitee_id db)
]

unfoldable pub get_by_id : Uuid → Query RoomInvite
unfolding full_invite
get_by_id id = read (λ db. or_not_found (full_invite id db))

abbrev pub is_open_invite : Uuid → InviteRow → Bool
is_open_invite id r = r.id == id && is_pending r.status

-- `UPDATE room_invites SET status = … WHERE id = $1 AND status = 'pending'`
unfoldable pub close_invite : InviteStatus → Uuid → Db → Result (Unit {0}) × Db
close_invite status id db =
    if exists_row (is_open_invite id) db.room_invites
    then (
      ok tt,
      record db {
        room_invites =
            update_where (is_open_invite id) (λ r. record r { status = status }) db.room_invites;
      },
    )
    else (err not_found, db)

unfoldable pub accept : Uuid → Query (Unit {0})
unfolding close_invite
accept id = call (close_invite accepted id)

unfoldable pub decline : Uuid → Query (Unit {0})
unfolding close_invite
decline id = call (close_invite declined id)

-- The rows of `ListPending`: the joins are with the room and the inviter, and the invitee's name
-- is left empty.
pending_row : Db → InviteRow → Option RoomInvite
pending_row db r = elim (room_with r.room_id db) [
  | none ↦ none
  | some room ↦ elim (user_with r.inviter_id db) [
    | none ↦ none
    | some inviter ↦ some (record {
      id = r.id;
      room_id = r.room_id;
      inviter_id = r.inviter_id;
      invitee_id = r.invitee_id;
      status = r.status;
      created_at = r.created_at;
      room_name = room.name;
      inviter_username = inviter.username;
      invitee_username = [];
    })
  ]
]

-- The rows of `ListForRoom`: the join is with the invitee alone.
room_row : Db → InviteRow → Option RoomInvite
room_row db r = elim (user_with r.invitee_id db) [
  | none ↦ none
  | some invitee ↦ some (record {
    id = r.id;
    room_id = r.room_id;
    inviter_id = r.inviter_id;
    invitee_id = r.invitee_id;
    status = r.status;
    created_at = r.created_at;
    room_name = [];
    inviter_username = [];
    invitee_username = invitee.username;
  })
]

unfoldable pub list_pending : Uuid → Query (List RoomInvite)
unfolding pending_row
list_pending user = read (λ db. ok (
    order_by (λ (i : RoomInvite). i.created_at)
      (collect (pending_row db)
        (select (λ (r : InviteRow). r.invitee_id == user && is_pending r.status) db.room_invites))))

unfoldable pub list_for_room : Uuid → Query (List RoomInvite)
unfolding room_row
list_for_room room = read (λ db. ok (
    order_by (λ (i : RoomInvite). i.created_at)
      (collect (room_row db) (select (λ (r : InviteRow). r.room_id == room) db.room_invites))))
