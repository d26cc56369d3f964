-- ===== src/Tests/Profiles.antt =====
-- Friends' lists, search, profiles and an admin's removal.
use chat_back.Prelude.{
  ℕ, ◌<◌, ◌≡◌, ◌↔◌, ◌+◌, ◌*◌, ◌/◌, refl, arith, true, Bool, [], ◌∷◌, some, none, ◌==◌, ◌&&◌,
  if◌then◌else◌, length, leb,
}
use chat_back.Text.{Text, trim_space}
use chat_back.Domain.{Uuid, FriendStatus}
use chat_back.Store.{UserRow, Db, online}
use chat_back.Store.Order.{In}
use chat_back.Store.Integrity.{IsConsistent}
use chat_back.Postgres.InviteRepo.{user_with}
use chat_back.Postgres.FriendRepo.Listings.{friends_of}
use chat_back.Postgres.FriendRepo.Symmetric.{entry, IsLinked, friends_iff}
use chat_back.Http.{Caller, given}
use chat_back.Http.Users.{Imaging, update_profile}
use chat_back.Http.Users.Resize.{Image, resize_to_128, resize_to_128_lem, source, size}
use chat_back.Http.Users.Profile.{changed, renamed, status_for, update_profile_lem}
use chat_back.Http.Admin.{delete_user, require_admin}
use chat_back.Http.Admin.Removal.{removal_status, delete_user_lem}
use chat_back.Tests.Sample.{alice, bob, carol, book, user_row}

-- Alice and Bob are friends.
abbrev friends : Db
friends = record book {
  friendships =
      (record {
        id = 70;
        requester_id = alice;
        addressee_id = bob;
        status = FriendStatus.accepted;
        created_at = 3;
        updated_at = 4;
      })
      ∷ [];
}

abbrev by_length : Text → Text → Bool
by_length s t = leb (length s) (length t)

friends_iff_example :
    In (entry 70 (user_row bob)) (friends_of by_length alice friends)
    ↔ IsLinked 70 alice bob friends
friends_iff_example = friends_iff by_length friends 70 alice bob (user_row bob) refl

-- Bob with a tag.
abbrev tagged : UserRow
tagged = record (user_row bob) { tag = 48 ∷ 48 ∷ 52 ∷ 50 ∷ [] }

abbrev tags : Db
tags = record book { users = tagged ∷ user_row alice ∷ [] }

abbrev caller : Caller
caller = record { user_id = alice; is_admin = true }

abbrev spaced : Text
spaced = 32 ∷ 65 ∷ 108 ∷ 32 ∷ []

update_profile_lem_example :
    let (r, w) = update_profile 50 caller (given spaced) (online book) in
    (r.status ≡ status_for spaced)
    × ((j : Uuid)
        → user_with j w.db ≡ (
            if status_for spaced == 200 && alice == j
            then changed (renamed (trim_space spaced) 50) (user_with j book)
            else user_with j book))
update_profile_lem_example = update_profile_lem 50 caller spaced book

-- An image of two pixels, and colours that are numbers.
abbrev photo : Image ℕ
photo = record { min_x = 0; min_y = 0; width = 2; height = 1; at = λ x y. x + 10 * y }

abbrev imaging : Imaging ℕ
imaging = record {
  nrgba = λ c. c;
  blank = 0;
  decode = λ _. some photo;
  encode = λ img. some (img.at 0 0 ∷ img.at 127 127 ∷ []);
  uuid_string = λ u. u ∷ [];
}

resize_to_128_lem_example :
    ((resize_to_128 (λ c. c) 0 photo).at 100 7 ≡ source (λ (c : ℕ). c) 0 photo 100 7)
    × ((0 < 2) → 0 + 100 * 2 / size < 0 + 2)
    × ((0 < 1) → 0 + 7 * 1 / size < 0 + 1)
resize_to_128_lem_example = resize_to_128_lem (λ c. c) 0 photo 100 7 (omega arith) (omega arith)

book-IsConsistent : IsConsistent book
book-IsConsistent = ground arith

delete_user_lem_example :
    let (r, w) = require_admin (delete_user (given carol)) caller (online book) in
    (r.status ≡ removal_status caller carol)
    × IsConsistent w.db
    × ((j : Uuid)
        → user_with j w.db
          ≡ (if removal_status caller carol == 204 && carol == j then none else user_with j book))
delete_user_lem_example = delete_user_lem caller carol book book-IsConsistent
