-- ===== src/Postgres/RoomRepo/Seats.antt =====
-- What the statements on `room_members` do to the role of one user in one room.
use chat_back.Prelude.{
  Bool, true, List, [], ◌∷◌, none, some, ◌==◌, ◌&&◌, ◌≡◌, refl, arith, if◌then◌else◌, exists_row,
  delete_where, update_where, is_some,
}
use chat_back.Domain.{Uuid, MemberRole}
use chat_back.Store.{MemberRow, is_seat, Db, ok}
use chat_back.Postgres.RoomRepo.{role_of, with_role, role_in, upsert_member}

abbrev pub same_seat : Uuid → Uuid → Uuid → Uuid → Bool
same_seat r u room user = r == room && u == user

pub exists-role_of :
    (room user : Uuid) (ms : List MemberRow)
    → exists_row (is_seat room user) ms ≡ is_some (role_of room user ms)
unfolding role_of
exists-role_of room user [] = refl
exists-role_of room user (m ∷ ms) = ground (arith, exists-role_of room user ms)

pub role_of-update :
    (r u room user : Uuid) (role : MemberRole) (ms : List MemberRow)
    → role_of r u (update_where (is_seat room user) (with_role role) ms)
      ≡ (if same_seat r u room user && is_some (role_of r u ms) then some role else role_of r u ms)
unfolding role_of
role_of-update r u room user role [] = ground arith
role_of-update r u room user role (m ∷ ms) = ground (arith, role_of-update r u room user role ms)

pub role_of-delete :
    (r u room user : Uuid) (ms : List MemberRow)
    → role_of r u (delete_where (is_seat room user) ms)
      ≡ (if same_seat r u room user then none else role_of r u ms)
unfolding role_of
role_of-delete r u room user [] = ground arith
role_of-delete r u room user (m ∷ ms) = ground (arith, role_of-delete r u room user ms)

pub role_of-delete_room :
    (r u room : Uuid) (ms : List MemberRow)
    → role_of r u (delete_where (λ (m : MemberRow). m.room_id == room) ms)
      ≡ (if r == room then none else role_of r u ms)
unfolding role_of
role_of-delete_room r u room [] = ground arith
role_of-delete_room r u room (m ∷ ms) = ground (arith, role_of-delete_room r u room ms)

pub role_of-cons :
    (r u : Uuid) (m : MemberRow) (ms : List MemberRow)
    → role_of r u (m ∷ ms) ≡ (if is_seat r u m then some m.role else role_of r u ms)
unfolding role_of
role_of-cons r u m ms = refl

pub role_of-same :
    (r u room user : Uuid) (ms : List MemberRow)
    → same_seat r u room user ≡ true
    → role_of r u ms ≡ role_of room user ms
role_of-same r u room user ms h =
    let e : r ≡ room = ground arith in let e' : u ≡ user = ground arith in cc

-- `AddMember` that succeeds sets the role of that seat, and of no other.
pub role_of-upsert :
    (r u room user : Uuid) (role : MemberRole) (db : Db)
    → (upsert_member room user role db).0 ≡ ok tt
    → role_in r u (upsert_member room user role db).1
      ≡ (if same_seat r u room user then some role else role_in r u db)
unfolding upsert_member
role_of-upsert r u room user role db h = ground (
  arith,
  exists-role_of room user db.room_members,
  role_of-update r u room user role db.room_members,
  role_of-cons r u (record { room_id = room; user_id = user; role = role }) db.room_members,
  role_of-same r u room user db.room_members,
)
