-- ===== src/Http/Admin/Removal.antt =====
-- What an admin's removals leave, in admin_handler.go.
use chat_back.Prelude.{
  ℕ, true, false, List, [], ◌∷◌, none, ◌==◌, ◌&&◌, ◌||◌, ◌≡◌, ◌≢◌, arith, refl, find_row,
  delete_where, Bool-cases, inl, inr, if◌then◌else◌,
}
use chat_back.Domain.{Uuid, Room}
use chat_back.Store.{UserRow, MessageRow, Db, online, has_user, has_room, next_fails, later_faults}
use chat_back.Store.Order.{In, delete_keeps}
use chat_back.Store.Integrity.{HasBoth, IsConsistent, All-delete, exists-delete_apart, exists_none}
use chat_back.Postgres.InviteRepo.{user_with}
use chat_back.Postgres.AdminRepo.{remove_user, is_owned}
use chat_back.Http.{Caller, given}
use chat_back.Http.Admin.{delete_user, require_admin}

module _ (id : Uuid) (db : Db) where
  has_user-remove_user :
      (j : Uuid) → (j == id) ≡ false → has_user j db ≡ true → has_user j (remove_user id db) ≡ true
  unfolding remove_user
  has_user-remove_user j apart there =
      exists-delete_apart (λ (u : UserRow). u.id == j) (λ u. u.id == id) db.users there
        (exists_none _ db.users (λ u. ground arith))

  has_room-remove_user :
      (j : Uuid)
      → is_owned id db j ≡ false
      → has_room j db ≡ true
      → has_room j (remove_user id db) ≡ true
  unfolding remove_user
  has_room-remove_user j apart there =
      exists-delete_apart (λ (r : Room). r.id == j) (λ r. r.owner_id == id) db.rooms there apart

  HasBoth-remove_user :
      (room user : Uuid)
      → HasBoth room user db
      → (user == id || is_owned id db room) ≡ false
      → HasBoth room user (remove_user id db)
  HasBoth-remove_user room user (there, here) kept = (
    has_room-remove_user room (ground arith) there,
    has_user-remove_user user (ground arith) here,
  )

  remove_user-IsConsistent : IsConsistent db → IsConsistent (remove_user id db)
  unfolding remove_user
  remove_user-IsConsistent (rooms, members, messages, invites, reads, friends) = (
    All-delete _ _ _ db.rooms (λ r h k. has_user-remove_user r.owner_id k h) rooms,
    All-delete _ _ _ db.room_members (λ m h k. HasBoth-remove_user m.room_id m.user_id h k) members,
    All-delete _ _ _ db.messages (λ m h k. HasBoth-remove_user m.room_id m.user_id h k) messages,
    All-delete _ _ _ db.room_invites
        (λ i h k. (
          HasBoth-remove_user i.room_id i.inviter_id h.0 (ground arith),
          has_user-remove_user i.invitee_id (ground arith) h.1,
        ))
        invites,
    All-delete _ _ _ db.room_reads (λ r h k. HasBoth-remove_user r.room_id r.user_id h k) reads,
    All-delete _ _ _ db.friendships
        (λ f h k. (
          has_user-remove_user f.requester_id (ground arith) h.0,
          has_user-remove_user f.addressee_id (ground arith) h.1,
        ))
        friends,
  )

find_delete :
    (i j : Uuid) (us : List UserRow)
    → find_row (λ (u : UserRow). u.id == j) (delete_where (λ (u : UserRow). u.id == i) us)
      ≡ (if i == j then none else find_row (λ (u : UserRow). u.id == j) us)
find_delete i j [] = ground arith
find_delete i j (u ∷ us) = ground (arith, find_delete i j us)

-- What `deleteUser` answers behind `requireAdmin`.
abbrev pub removal_status : Caller → Uuid → ℕ
removal_status caller id =
    if caller.is_admin then (if caller.user_id == id then 400 else 204) else 403

-- With the database at hand, a request to delete a user is answered by 403 to who is no admin, by
-- 400 for the caller's own id, and else by 204: that user then has no row, and every other user,
-- the caller among them, has the row of before. As no reference is left without its row, nothing
-- of the user's is left in any table.
pub delete_user_lem :
    (caller : Caller) (id : Uuid) (db : Db)
    → IsConsistent db
    → (let (r, w) = require_admin (delete_user (given id)) caller (online db) in
        (r.status ≡ removal_status caller id)
        × IsConsistent w.db
        × ((j : Uuid)
            → user_with j w.db
              ≡ (if removal_status caller id == 204 && id == j then none else user_with j db)))
unfolding require_admin delete_user next_fails later_faults
delete_user_lem caller id db consistent = elim (Bool-cases caller.is_admin) [
  | inr plain ↦ rw plain (refl, consistent, λ j. refl)
  | inl admin ↦ elim (Bool-cases (caller.user_id == id)) [
    | inl self ↦ rw (admin, self) (refl, consistent, λ j. refl)
    | inr other ↦
        rw (admin, other)
          (
            refl,
            remove_user-IsConsistent id db consistent,
            λ j. unfold remove_user in ground (arith, find_delete id j db.users),
          )
  ]
]

-- A message of another author in a room that the user does not own survives the user's removal.
pub delete_user_spares :
    (caller : Caller) (id : Uuid) (db : Db) (m : MessageRow)
    → In m db.messages
    → m.user_id ≢ id
    → is_owned id db m.room_id ≡ false
    → In m (require_admin (delete_user (given id)) caller (online db)).1.db.messages
unfolding require_admin delete_user remove_user next_fails later_faults
delete_user_spares caller id db m i other room = elim (Bool-cases caller.is_admin) [
  | inr plain ↦ rw plain i
  | inl admin ↦ elim (Bool-cases (caller.user_id == id)) [
    | inl self ↦ rw (admin, self) i
    | inr mine ↦ rw (admin, mine) (delete_keeps _ db.messages m i (ground arith))
  ]
]
