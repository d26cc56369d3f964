-- ===== src/Tests/Services.antt =====
-- The room service.
use chat_back.Prelude.{
  ◌≡◌, ◌≢◌, ◌⊎◌, ◌↔◌, refl, true, false, [], ◌∷◌, none, some, if◌then◌else◌, exists_row, ◌==◌, ◌&&◌,
}
use chat_back.Text.{Text, trim_space, has_nul}
use chat_back.Domain.{
  Uuid, Time, Room, public, owner, admin, member, RoomInvite, pending, driver, unavailable,
}
use chat_back.Store.{next_fails, later_faults, World, ok, err, is_ok, online}
use chat_back.Postgres.RoomRepo.{role_in, role_of, room_with, valid_role}
use chat_back.Postgres.RoomRepo.Seats.{same_seat}
use chat_back.Postgres.InviteRepo.{full_invite, is_open_invite}
use chat_back.App.RoomService.{
  kick_member, set_role, create, delete, accept_invite, invite_user, new_invite,
}
use chat_back.App.RoomService.Kick.{MayKick, kick_member_iff}
use chat_back.App.RoomService.Roles.{MaySetRole, set_role_iff}
use chat_back.App.RoomService.Invites.{
  status_of, MayInvite, accept_invite_effect, accept_invite_lost, invite_user_effect,
}
use chat_back.App.RoomService.Rooms.{IsGone, create_effect, delete_effect}
use chat_back.Tests.Sample.{alice, bob, carol, dave, den, book, world}

-- The admin of room 11 removes its plain member.
kick_member_iff_example :
    (((kick_member den bob carol world).0 ≡ ok tt)
      ↔ ((bob ≢ carol) × MayKick (role_in den bob book) (role_in den carol book)))
    × ((kick_member den bob carol world).0 ≡ ok tt
        → (r u : Uuid)
        → role_in r u (kick_member den bob carol world).1.db
          ≡ (if same_seat r u den carol then none else role_in r u book))
kick_member_iff_example = kick_member_iff den bob carol world refl

set_role_iff_example :
    (((set_role den alice carol admin world).0 ≡ ok tt) ↔ (
      (admin ≢ owner)
      × (valid_role admin ≡ true)
      × MaySetRole den alice book
      × (role_in den carol book ≢ none)))
    × ((set_role den alice carol admin world).0 ≡ ok tt
        → (r u : Uuid)
        → role_in r u (set_role den alice carol admin world).1.db
          ≡ (if same_seat r u den carol then some admin else role_in r u book))
set_role_iff_example = set_role_iff den alice carol admin world refl

abbrev invite : RoomInvite
invite = record {
  id = 50;
  room_id = 11;
  inviter_id = 1;
  invitee_id = 4;
  status = pending;
  created_at = 9;
  room_name = 114 ∷ [];
  inviter_username = 97 ∷ 1 ∷ [];
  invitee_username = 97 ∷ 4 ∷ [];
}

accept_invite_effect_example :
    (dave ≡ dave)
    × (exists_row (is_open_invite 50) book.room_invites ≡ true)
    × ((r u : Uuid)
        → role_in r u (accept_invite 50 dave world).1.db
          ≡ (if same_seat r u den dave then some member else role_in r u book))
unfolding accept_invite full_invite next_fails later_faults
accept_invite_effect_example = accept_invite_effect 50 dave world invite refl refl

-- The third call does not reach the database.
abbrev failing : World
failing = record { db = book; faults = false ∷ false ∷ true ∷ false ∷ [] }

accept_invite_lost_example :
    let w' = (accept_invite 50 dave failing).1 in
    ((accept_invite 50 dave failing).0 ≡ err (driver unavailable))
    × ((r u : Uuid) → role_in r u w'.db ≡ role_in r u book)
    × ((u : Uuid) → is_ok (accept_invite 50 u (online w'.db)).0 ≡ false)
    × ((new_id inviter : Uuid) (now : Time)
        → is_ok (invite_user new_id now 11 inviter dave (online w'.db)).0 ≡ false)
unfolding full_invite
accept_invite_lost_example =
    accept_invite_lost 50 dave failing invite (false ∷ []) refl refl refl refl

invite_user_effect_example :
    MayInvite 11 3 book
    × (status_of 51 (invite_user 51 20 11 3 2 world).1.db.room_invites ≡ some pending)
    × ((new_invite 51 20 11 3 2).room_id ≡ 11)
    × ((new_invite 51 20 11 3 2).invitee_id ≡ 2)
    × ((j : Uuid)
        → j ≢ 51
        → status_of j (invite_user 51 20 11 3 2 world).1.db.room_invites
          ≡ status_of j book.room_invites)
    × ((invite_user 51 20 11 3 2 world).1.db.room_members ≡ book.room_members)
unfolding invite_user role_of next_fails later_faults
invite_user_effect_example =
    invite_user_effect 51 20 11 3 2 world {i = new_invite 51 20 11 3 2} refl

abbrev new_room : Room
new_room = record { id = 13; name = 98 ∷ []; type = public; owner_id = 2; created_at = 0 }

-- The name ` b `.
abbrev new_name : Text
new_name = 32 ∷ 98 ∷ 32 ∷ []

create_effect_example :
    ((create 13 new_name public 2 world).0 ≡ ok new_room)
    × (room_with 13 (create 13 new_name public 2 world).1.db ≡ some new_room)
    × ((r u : Uuid)
        → role_in r u (create 13 new_name public 2 world).1.db
          ≡ (if same_seat r u 13 2 then some owner else role_in r u book))
unfolding create trim_space has_nul
create_effect_example = create_effect 13 new_name public 2 world refl refl refl refl refl refl

delete_effect_example :
    ((false ≡ true) ⊎ (exists_row (λ (r : Room). r.id == 11 && r.owner_id == 1) book.rooms ≡ true))
    × IsGone 11 (delete 11 1 false world).1.db
    × ((r u : Uuid) → r ≢ 11 → role_in r u (delete 11 1 false world).1.db ≡ role_in r u book)
unfolding delete next_fails
delete_effect_example = delete_effect 11 1 false world refl
