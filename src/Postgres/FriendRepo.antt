-- ===== src/Postgres/FriendRepo.antt =====
-- internal/adapter/outbound/postgres/friend_repo.go: requests and the rooms of DMs.
pub mod Listings
pub mod Symmetric
use chat_back.Prelude.{
  Bool, true, false, not, [], ◌∷◌, ◌==◌, ◌&&◌, ◌||◌, if◌then◌else◌, exists_row, find_row,
  update_where, delete_where,
}
use chat_back.Domain.{
  Uuid, Time, not_found, driver, foreign_key_violation, unique_violation, friendships_pkey,
  room_members_pkey, Room, RoomType, dm, member, FriendStatus, is_unanswered,
}
use chat_back.Store.{
  FriendRow, MemberRow, Db, World, Result, ok, err, is_ok, Query, ◌>>◌, return, call, read,
  has_user, has_room, is_seat,
}
use chat_back.Postgres.RoomRepo.{insert_room, or_not_found}

abbrev pub is_pair : Uuid → Uuid → FriendRow → Bool
is_pair requester addressee r = r.requester_id == requester && r.addressee_id == addressee

-- `INSERT … ON CONFLICT (requester_id, addressee_id) DO NOTHING`; the database makes the id.
unfoldable pub insert_friendship : Uuid → Time → Uuid → Uuid → Db → Result (Unit {0}) × Db
insert_friendship new_id now requester addressee db =
    if exists_row (is_pair requester addressee) db.friendships
    then (ok tt, db)
    else if exists_row (λ (r : FriendRow). r.id == new_id) db.friendships
    then (err (driver (unique_violation friendships_pkey)), db)
    else if not (has_user requester db && has_user addressee db)
    then (err (driver foreign_key_violation), db)
    else (
      ok tt,
      record db {
        friendships =
            (record {
              id = new_id;
              requester_id = requester;
              addressee_id = addressee;
              status = FriendStatus.pending;
              created_at = now;
              updated_at = now;
            })
            ∷ db.friendships;
      },
    )

unfoldable pub send_request : Uuid → Time → Uuid → Uuid → Query (Unit {0})
unfolding insert_friendship
send_request new_id now requester addressee =
    call (insert_friendship new_id now requester addressee)

abbrev pub is_open_request : Uuid → Uuid → FriendRow → Bool
is_open_request id addressee r = r.id == id && r.addressee_id == addressee && is_unanswered r.status

unfoldable pub accept : Time → Uuid → Uuid → Query (Unit {0})
accept now id addressee = call (λ db.
    if exists_row (is_open_request id addressee) db.friendships
    then (
      ok tt,
      record db {
        friendships =
            update_where (is_open_request id addressee)
              (λ r. record r { status = FriendStatus.accepted; updated_at = now }) db.friendships;
      },
    )
    else (err not_found, db))

unfoldable pub remove : Uuid → Uuid → Query (Unit {0})
remove id user = call (λ db. (
  ok tt,
  record db {
    friendships =
        delete_where
          (λ (r : FriendRow). r.id == id && (r.requester_id == user || r.addressee_id == user))
          db.friendships;
  },
))

abbrev pub is_dm : RoomType → Bool
is_dm dm = true
is_dm _ = false

-- The `WHERE` of the first statement of `GetOrCreateDM`.
abbrev pub is_dm_of : Uuid → Uuid → Db → Room → Bool
is_dm_of user₁ user₂ db r =
    is_dm r.type
    && exists_row (is_seat r.id user₁) db.room_members
    && exists_row (is_seat r.id user₂) db.room_members

abbrev pub seat_of : Uuid → Uuid → MemberRow
seat_of room user = record { room_id = room; user_id = user; role = member }

-- The two rows of one `INSERT`.
unfoldable pub insert_seats : Uuid → Uuid → Uuid → Db → Result (Unit {0}) × Db
insert_seats room user₁ user₂ db =
    if user₁ == user₂
      || exists_row (is_seat room user₁) db.room_members
      || exists_row (is_seat room user₂) db.room_members
    then (err (driver (unique_violation room_members_pkey)), db)
    else if not (has_room room db && has_user user₁ db && has_user user₂ db)
    then (err (driver foreign_key_violation), db)
    else (
      ok tt,
      record db { room_members = seat_of room user₁ ∷ seat_of room user₂ ∷ db.room_members },
    )

-- `Begin` and `Commit`.
abbrev pub reaches : Query (Unit {0})
reaches = call (λ db. (ok tt, db))

-- `defer tx.Rollback(ctx)`: a transaction that is not committed leaves the tables as they were.
unfoldable pub in_transaction : {A : Type 0} → Query A → Query A
in_transaction m w = let (r, w') = m w in (r, if is_ok r then w' else record w' { db = w.db })

abbrev pub new_dm : Uuid → Uuid → Time → Room
new_dm new_id owner created_at = record {
  id = new_id;
  name = [];
  type = dm;
  owner_id = owner;
  created_at = created_at;
}

-- The row gets the time of the database; the room that is returned keeps the zero time.
abbrev pub dm_statements : Uuid → Time → Uuid → Uuid → Query Room
dm_statements new_id now user₁ user₂ =
    reaches
    >> call (insert_room (new_dm new_id user₁ now))
    >> call (insert_seats new_id user₁ user₂)
    >> reaches
    >> return (new_dm new_id user₁ 0)

unfoldable pub create_dm : Uuid → Time → Uuid → Uuid → Query Room
unfolding in_transaction insert_room insert_seats
create_dm new_id now user₁ user₂ = in_transaction (dm_statements new_id now user₁ user₂)

unfoldable pub find_dm : Uuid → Uuid → Query Room
find_dm user₁ user₂ = read (λ db. or_not_found (find_row (is_dm_of user₁ user₂ db) db.rooms))

-- Any error of the search, not only that there is no such room, leads to a new room.
abbrev pub or_create : Uuid → Time → Uuid → Uuid → Result Room × World → Result Room × World
or_create new_id now user₁ user₂ (ok r, w) = (ok r, w)
or_create new_id now user₁ user₂ (err e, w) = create_dm new_id now user₁ user₂ w

unfoldable pub get_or_create_dm : Uuid → Time → Uuid → Uuid → Query Room
unfolding find_dm create_dm
get_or_create_dm new_id now user₁ user₂ w = or_create new_id now user₁ user₂ (find_dm user₁ user₂ w)
