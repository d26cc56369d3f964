-- ===== src/Tests/Friends.antt =====
-- Friend requests and DMs.
use chat_back.Prelude.{◌≡◌, ◌↔◌, refl, true, false, [], ◌∷◌, if◌then◌else◌, ◌==◌, ◌&&◌}
use chat_back.Domain.{Uuid}
use chat_back.Store.{World, ok, next_fails, later_faults}
use chat_back.Postgres.FriendRepo.{new_dm, is_dm_of}
use chat_back.App.FriendService.{accept, get_or_create_dm}
use chat_back.App.FriendService.Friendship.{open_to, answered, friendship_with, accept_iff}
use chat_back.App.FriendService.Direct.{get_or_create_dm_effect}
use chat_back.Tests.Sample.{alice, bob, book, world}

accept_iff_example :
    ((accept 40 70 bob world).0 ≡ ok tt ↔ (open_to bob (friendship_with 70 book) ≡ true))
    × ((j : Uuid)
        → friendship_with j (accept 40 70 bob world).1.db ≡ (
            if j == 70 && open_to bob (friendship_with j book)
            then answered 40 (friendship_with j book)
            else friendship_with j book))
accept_iff_example = accept_iff 40 70 bob world refl (refl, tt)

get_or_create_dm_effect_example :
    is_dm_of alice bob (get_or_create_dm 20 40 alice bob world).1.db (new_dm 20 alice 0) ≡ true
unfolding get_or_create_dm next_fails later_faults
get_or_create_dm_effect_example =
    get_or_create_dm_effect 20 40 alice bob world (new_dm 20 alice 0) refl

-- The rows of the members do not reach the database.
abbrev failing : World
failing = record { db = book; faults = false ∷ false ∷ false ∷ true ∷ [] }
