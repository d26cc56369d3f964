-- ===== src/Tests/Messages.antt =====
-- Messages: the service and the pages of a room.
use chat_back.Prelude.{
  ◌≡◌, ◌↔◌, refl, arith, true, false, [], ◌∷◌, length, none, some, if◌then◌else◌, ◌==◌,
}
use chat_back.Text.{Text, trim_space, has_nul}
use chat_back.Domain.{Uuid, uuid_nil, Message}
use chat_back.Store.{ok, is_ok, has_room, has_user, timestamptz}
use chat_back.Store.Order.{In}
use chat_back.Postgres.MessageRepo.{message_with, row_of}
use chat_back.Postgres.MessageRepo.Walk.{walk, walk_complete, HasKey}
use chat_back.App.MessageService.{edit, send_message}
use chat_back.App.MessageService.Edits.{IsContent, author_of, edited, edit_iff}
use chat_back.App.MessageService.Sending.{send_message_iff}
use chat_back.Tests.Sample.{bob, carol, hall, den, book, world, messages, message_row}

-- The text ` yo`.
abbrev yo : Text
yo = 32 ∷ 121 ∷ 111 ∷ []

edit_iff_example :
    ((is_ok (edit 30123 100 carol yo world).0 ≡ true) ↔ (
      IsContent (trim_space yo)
      × (has_nul (trim_space yo) ≡ false)
      × (author_of (message_with 100 book) ≡ some carol)))
    × (is_ok (edit 30123 100 carol yo world).0 ≡ true
        → (j : Uuid)
        → message_with j (edit 30123 100 carol yo world).1.db ≡ (
            if j == 100
            then edited (trim_space yo) 30123 (message_with j book)
            else message_with j book))
edit_iff_example = edit_iff 30123 100 carol yo world refl

send_message_iff_example :
    ((is_ok (send_message 103 30123 bob yo hall yo world).0 ≡ true) ↔ (
      IsContent (trim_space yo)
      × (has_nul yo ≡ false)
      × (has_nul yo ≡ false)
      × (message_with 103 book ≡ none)
      × (has_room hall book ≡ true)
      × (has_user bob book ≡ true)))
    × ((m : Message)
        → (send_message 103 30123 bob yo hall yo world).0 ≡ ok m
        → (m.content ≡ yo)
          × (m.room_id ≡ hall)
          × (m.user_id ≡ bob)
          × (m.created_at ≡ 30123)
          × ((row_of m).created_at ≡ timestamptz 30123)
          × ((send_message 103 30123 bob yo hall yo world).1.db.messages ≡ row_of m ∷ messages))
send_message_iff_example = send_message_iff 103 30123 bob yo hall yo world refl

messages-HasKey : HasKey messages
messages-HasKey a b i j e = ground arith

walk_complete_example :
    In (message_row 100 den carol) (walk (length messages) den uuid_nil 1 messages)
    ↔ (In (message_row 100 den carol) messages × ((message_row 100 den carol).room_id ≡ den))
walk_complete_example =
    walk_complete den 1 messages (omega arith) messages-HasKey (message_row 100 den carol)
