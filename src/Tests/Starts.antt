-- ===== src/Tests/Starts.antt =====
-- The seeding of the demo.
use chat_back.Prelude.{◌≡◌, refl, inl, [], ◌∷◌}
use chat_back.Text.{text_eq}
use chat_back.Store.{Db, online}
use chat_back.Startup.Seed.{SeedIds, IsSeeded, friend_row, seed_demo_data, seed_demo_data_twice}
use chat_back.Tests.Sample.{book}
use chat_back.Tests.Accounts.Signed.{eve, address}

-- Eve is the demo user.
abbrev users : Db
users = record book { users = friend_row 30 5 ∷ eve ∷ []; rooms = [] }

abbrev ids : SeedIds
ids = record { friend = 40; friendship = 41; text_id = 42; voice_id = 43 }

abbrev later_ids : SeedIds
later_ids = record { friend = 50; friendship = 51; text_id = 52; voice_id = 53 }

seed_demo_data_twice_example :
    let w = seed_demo_data ids 60 address (online users) in
    IsSeeded address w.db × (seed_demo_data later_ids 90 address (online w.db) ≡ online w.db)
unfolding text_eq
seed_demo_data_twice_example =
    seed_demo_data_twice ids later_ids 60 90 address users eve (friend_row 30 5) refl refl
      (refl, refl) (inl refl) (refl, refl, refl, refl)
