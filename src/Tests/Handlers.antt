-- ===== src/Tests/Handlers.antt =====
-- The HTTP handlers.
use chat_back.Prelude.{◌≡◌, ◌≢◌, ◌⊎◌, ◌↔◌, refl, true, false, [], ◌∷◌, none, if◌then◌else◌, ◌==◌}
use chat_back.Text.{Text}
use chat_back.Domain.{Uuid}
use chat_back.Postgres.RoomRepo.{role_in}
use chat_back.Postgres.MessageRepo.{message_with}
use chat_back.Http.{Caller, absent, given}
use chat_back.Http.Messages.{history, delete_message}
use chat_back.Http.Messages.Access.{MayDelete, frames_of, delete_message_iff, history_authorised}
use chat_back.Tests.Sample.{bob, den, book, world}

abbrev caller : Uuid → Caller
caller user = record { user_id = user; is_admin = false }

-- The room's admin deletes a message of carol's.
delete_message_iff_example :
    (((delete_message (caller bob) (given 100) world).0.status ≡ 204)
      ↔ MayDelete (caller bob) (message_with 100 book) book)
    × ((delete_message (caller bob) (given 100) world).0.status ≡ 204
        → (frames_of (delete_message (caller bob) (given 100) world).0 ≡ 1)
          × ((j : Uuid)
              → message_with j (delete_message (caller bob) (given 100) world).1.db
                ≡ (if j == 100 then none else message_with j book)))
delete_message_iff_example = delete_message_iff (caller bob) 100 world refl

history_authorised_example :
    ((history (λ n. n ∷ []) (caller bob) (given den) absent absent world).1.db ≡ book)
    × ((history (λ n. n ∷ []) (caller bob) (given den) absent absent world).0.status ≡ 200
        → ((caller bob).is_admin ≡ true) ⊎ (role_in den bob book ≢ none))
history_authorised_example = history_authorised (λ n. n ∷ []) (caller bob) den absent absent world

abbrev new_name : Text
new_name = 32 ∷ 98 ∷ []
