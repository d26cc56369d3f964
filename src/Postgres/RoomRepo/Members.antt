-- ===== src/Postgres/RoomRepo/Members.antt =====
-- `GetMembers` of room_repo.go.
use chat_back.Prelude.{ℕ, Bool, List, Option, none, some, ◌==◌, ◌&&◌, ◌||◌, ltb, select, collect}
use chat_back.Domain.{Uuid, Member, MemberRole, owner, admin}
use chat_back.Store.{MemberRow, Db, Query, ok, read}
use chat_back.Store.Sort.{Collation, sort_by}
use chat_back.Postgres.InviteRepo.{user_with}

-- `CASE rm.role WHEN 'owner' THEN 0 WHEN 'admin' THEN 1 ELSE 2 END`
abbrev pub rank : Option MemberRole → ℕ
rank (some owner) = 0
rank (some admin) = 1
rank _ = 2

abbrev pub member_before : Collation → Member → Member → Bool
member_before before a b =
    ltb (rank a.role) (rank b.role) || (rank a.role == rank b.role && before a.username b.username)

abbrev pub member_of : Db → MemberRow → Option Member
member_of db m = elim (user_with m.user_id db) [
  | none ↦ none
  | some u ↦ some (record { user_id = u.id; username = u.username; role = some m.role })
]

unfoldable pub members_of : Collation → Uuid → Db → List Member
unfolding sort_by
members_of before room db =
    sort_by (member_before before)
      (collect (member_of db) (select (λ (m : MemberRow). m.room_id == room) db.room_members))

unfoldable pub get_members : Collation → Uuid → Query (List Member)
unfolding members_of
get_members before room = read (λ db. ok (members_of before room db))
