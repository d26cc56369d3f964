-- ===== src/Startup/Seed.antt =====
-- `seedDemoUser` and `seedDemoData` of cmd/server/main.go: what they do to the tables; the log lines
-- are left out.
use chat_back.Prelude.{
  not, ℕ, ◌+◌, Bool, true, false, List, [], ◌∷◌, none, some, ◌==◌, ◌&&◌, ◌≡◌, ◌⊎◌, if◌then◌else◌,
  arith, exists_row,
}
use chat_back.Text.{Text, text_eq, is_empty}
use chat_back.Text.Split.{codes}
use chat_back.Domain.{
  Uuid, Time, Room, RoomType, public, voice, FriendStatus, is_unanswered, driver,
  foreign_key_violation, unique_violation, friendships_pkey,
}
use chat_back.Store.{
  UserRow, FriendRow, Db, World, Result, ok, err, call, read, online, has_user, has_room,
  next_fails, later_faults,
}
use chat_back.Postgres.RoomRepo.{insert_room}
use chat_back.Postgres.UserRepo.{new_user, insert_user}
use chat_back.Postgres.FriendRepo.{is_pair}
use chat_back.Http.Auth.{Bcrypt, user_by_email, select_by_email}
use chat_back.Auth.Tag.{sprintf_04d, tag_exists}

-- `ON CONFLICT (email) DO NOTHING`
unfoldable pub insert_user_once : UserRow → Db → Result (Unit {0}) × Db
unfolding insert_user text_eq
insert_user_once u db =
    if exists_row (λ (x : UserRow). text_eq x.email u.email) db.users
    then (ok tt, db)
    else insert_user u db

-- The tag of the first draw that no user has, else the one that stands; an error of the query
-- leaves `exists` false.
unfoldable pub demo_tag : List ℕ → World → Text × World
unfolding tag_exists sprintf_04d
demo_tag [] w = (codes "0000", w)
demo_tag (d ∷ draws) w =
    let t = sprintf_04d (d + 1) in
    let (r, w') = tag_exists t w in
    let rest = demo_tag draws w' in elim r [ ok true ↦ rest | _ ↦ (t, w') ]

module _ (b : Bcrypt) where
  abbrev insert_demo : Uuid → Time → Text → Text → Text × World → World
  insert_demo new_id now email hash (tag, w) =
      (call (insert_user_once (new_user now new_id (codes "demo") email hash tag)) w).1

  abbrev is_found : Result UserRow → Bool
  is_found (ok _) = true
  is_found (err _) = false

  -- An error of the count leaves it at nought.
  unfoldable pub seed_demo_user : Uuid → List ℕ → Time → Text → Text → World → World
  unfolding insert_user_once demo_tag select_by_email
  seed_demo_user new_id draws now email password w =
      if is_empty password
      then w
      else (let (r, w') = select_by_email email w in
          if is_found r then w' else elim (b.hash password) [
            | none ↦ w'
            | some hash ↦ insert_demo new_id now email hash (demo_tag draws w')
          ])

-- The `INSERT` of an accepted friendship, `ON CONFLICT … DO NOTHING`.
unfoldable pub insert_accepted : Uuid → Time → Uuid → Uuid → Db → Result (Unit {0}) × Db
insert_accepted new_id now requester addressee db =
    if exists_row (is_pair requester addressee) db.friendships
    then (ok tt, db)
    else if exists_row (λ (r : FriendRow). r.id == new_id) db.friendships
    then (err (driver (unique_violation friendships_pkey)), db)
    else if not (has_user requester db && has_user addressee db)
    then (err (driver foreign_key_violation), db)
    else (
      ok tt,
      record db {
        friendships =
            (record {
              id = new_id;
              requester_id = requester;
              addressee_id = addressee;
              status = FriendStatus.accepted;
              created_at = now;
              updated_at = now;
            })
            ∷ db.friendships;
      },
    )

abbrev pub friend_email : Text
friend_email = codes "demofriend@jcrlabs.net"

abbrev pub friend_row : Uuid → Time → UserRow
friend_row new_id now =
    new_user now new_id (codes "demofriend") friend_email (codes "$2a$12$disabled") (codes "demo")

-- The two rooms.
pub data DemoRoom : Type 0 where
  text_room voice_room : DemoRoom

abbrev name_of : DemoRoom → Text
name_of text_room = codes "demotexto"
name_of voice_room = codes "demo voice chat"

abbrev type_of : DemoRoom → RoomType
type_of text_room = public
type_of voice_room = voice

abbrev has_type : DemoRoom → RoomType → Bool
has_type text_room public = true
has_type voice_room voice = true
has_type _ _ = false

abbrev pub has_demo_room : DemoRoom → Db → Bool
has_demo_room d db =
    exists_row (λ (r : Room). text_eq r.name (name_of d) && has_type d r.type) db.rooms

-- `exists` keeps its value when the query fails.
abbrev exists_or : Bool → Result Bool → Bool
exists_or before (ok found) = found
exists_or before (err _) = before

abbrev seed_room : DemoRoom → Uuid → Time → Uuid → Bool → World → Bool × World
seed_room d new_id now owner before w =
    let (r, w') = read (λ db. ok (has_demo_room d db)) w in
    let exists = exists_or before r in
    (
      exists,
      if exists
          then w'
          else (call
              (insert_room (record {
                id = new_id;
                name = name_of d;
                type = type_of d;
                owner_id = owner;
                created_at = now;
              }))
              w').1,
    )

pub record SeedIds : Type 0 where
  pub friend : Uuid
  pub friendship : Uuid
  pub text_id : Uuid
  pub voice_id : Uuid

abbrev seed_rest : SeedIds → Time → Uuid → Uuid → World → World
seed_rest ids now demo friend w =
    let w₁ = (call (insert_accepted ids.friendship now demo friend) w).1 in
    let (exists, w₂) = seed_room text_room ids.text_id now demo false w₁ in
    (seed_room voice_room ids.voice_id now demo exists w₂).1

abbrev seed_friend : SeedIds → Time → Uuid → Result UserRow × World → World
seed_friend ids now demo (ok f, w) = seed_rest ids now demo f.id w
seed_friend ids now demo (err _, w) =
    let (r, w') = call (insert_user_once (friend_row ids.friend now)) w in
    elim r [ ok _ ↦ seed_rest ids now demo ids.friend w' | err _ ↦ w' ]

abbrev seed_found : SeedIds → Time → Result UserRow × World → World
seed_found ids now (ok u, w) = seed_friend ids now u.id (select_by_email friend_email w)
seed_found ids now (err _, w) = w

unfoldable pub seed_demo_data : SeedIds → Time → Text → World → World
unfolding select_by_email insert_accepted insert_room insert_user_once text_eq
seed_demo_data ids now email w = seed_found ids now (select_by_email email w)

-- An accepted friendship that one of the two has asked for.
abbrev pub is_accepted_pair : Uuid → Uuid → FriendRow → Bool
is_accepted_pair requester addressee r =
    is_pair requester addressee r && not (is_unanswered r.status)

accepted-pair :
    (u f : Uuid) (rows : List FriendRow)
    → exists_row (is_accepted_pair u f) rows ≡ true
    → exists_row (is_pair u f) rows ≡ true
accepted-pair u f [] h = h
accepted-pair u f (r ∷ rows) h = ground (arith, accepted-pair u f rows)

-- Tables that have all that the seeding makes.
abbrev pub IsSeeded : Text → Db → Type 0
IsSeeded email db =
    (u f : UserRow) × (user_by_email email db ≡ some u)
    × (user_by_email friend_email db ≡ some f)
    × (exists_row (is_accepted_pair u.id f.id) db.friendships ≡ true)
    × (has_demo_room text_room db ≡ true)
    × (has_demo_room voice_room db ≡ true)

-- A start of the server on seeded tables, with the database at hand, changes none of them.
pub seed_demo_data_again :
    (ids : SeedIds) (now : Time) (email : Text) (db : Db)
    → IsSeeded email db
    → seed_demo_data ids now email (online db) ≡ online db
unfolding seed_demo_data select_by_email insert_accepted next_fails later_faults
seed_demo_data_again ids now email db (u, f, demo, friend, pair, text, speech) =
    ground (arith, accepted-pair u.id f.id db.friendships pair)

-- Ids that no row has.
abbrev pub AreFresh : SeedIds → Db → Type 0
AreFresh ids db =
    (exists_row (λ (r : FriendRow). r.id == ids.friendship) db.friendships ≡ false)
    × (has_room ids.text_id db ≡ false)
    × (has_room ids.voice_id db ≡ false)
    × ((ids.text_id == ids.voice_id) ≡ false)

-- The first has not asked the second, or has been accepted: `ON CONFLICT DO NOTHING` leaves a request
-- that is not answered as it is.
abbrev pub HasNoRequest : Uuid → Uuid → Db → Type 0
HasNoRequest u f db =
    (exists_row (is_pair u f) db.friendships ≡ false)
    ⊎ (exists_row (is_accepted_pair u f) db.friendships ≡ true)

seed_demo_data_seeds :
    (ids : SeedIds) (now : Time) (email : Text) (db : Db) (u f : UserRow)
    → user_by_email email db ≡ some u
    → user_by_email friend_email db ≡ some f
    → (has_user u.id db ≡ true) × (has_user f.id db ≡ true)
    → HasNoRequest u.id f.id db
    → AreFresh ids db
    → IsSeeded email (seed_demo_data ids now email (online db)).db
unfolding seed_demo_data select_by_email insert_accepted insert_room next_fails later_faults
seed_demo_data_seeds ids now email db u f demo friend rows none_open fresh =
    (u, f, ground arith, ground arith, ground arith, ground arith, ground arith)

-- With the database at hand, both demo users there and no request of the first to the second, or an
-- accepted one, the seeding on ids that no row has leaves tables with the accepted friendship and
-- the two rooms, and a later one, on whatever ids, changes nothing.
pub seed_demo_data_twice :
    (ids later_ids : SeedIds) (now later : Time) (email : Text) (db : Db) (u f : UserRow)
    → user_by_email email db ≡ some u
    → user_by_email friend_email db ≡ some f
    → (has_user u.id db ≡ true) × (has_user f.id db ≡ true)
    → HasNoRequest u.id f.id db
    → AreFresh ids db
    → (let w = seed_demo_data ids now email (online db) in
        IsSeeded email w.db × (seed_demo_data later_ids later email (online w.db) ≡ online w.db))
seed_demo_data_twice ids later_ids now later email db u f demo friend rows none_open fresh =
    let seeded = seed_demo_data_seeds ids now email db u f demo friend rows none_open fresh in
    (
      seeded,
      seed_demo_data_again later_ids later email (seed_demo_data ids now email (online db)).db
          seeded,
    )
