-- ===== src/App/MessageService/Sending.antt =====
-- `ChatService.SendMessage` and `MessageService.Save`: what is stored of a message.
use chat_back.Prelude.{true, false, [], ◌∷◌, none, ◌==◌, ◌≡◌, ◌↔◌, arith, exists-find}
use chat_back.Text.{Text, trim_space, has_nul}
use chat_back.Domain.{Uuid, Time, Message, validate}
use chat_back.Store.{World, ok, is_ok, MessageRow, next_fails, has_room, has_user, timestamptz}
use chat_back.Postgres.MessageRepo.{message_with, insert_message, row_of}
use chat_back.App.MessageService.{send_message}
use chat_back.App.MessageService.Edits.{IsContent}

send_message_allowed :
    (new_id : Uuid) (now : Time) (user : Uuid) (username : Text) (room : Uuid) (content : Text)
    (w : World)
    → is_ok (send_message new_id now user username room content w).0 ≡ true
    → IsContent (trim_space content)
      × (has_nul content ≡ false)
      × (has_nul username ≡ false)
      × (message_with new_id w.db ≡ none)
      × (has_room room w.db ≡ true)
      × (has_user user w.db ≡ true)
unfolding send_message validate insert_message
send_message_allowed new_id now user username room content w h =
    ground (arith, exists-find (λ (m : MessageRow). m.id == new_id) w.db.messages)

send_message_succeeds :
    (new_id : Uuid) (now : Time) (user : Uuid) (username : Text) (room : Uuid) (content : Text)
    (w : World)
    → w.faults ≡ []
    → IsContent (trim_space content)
      × (has_nul content ≡ false)
      × (has_nul username ≡ false)
      × (message_with new_id w.db ≡ none)
      × (has_room room w.db ≡ true)
      × (has_user user w.db ≡ true)
    → is_ok (send_message new_id now user username room content w).0 ≡ true
unfolding send_message validate insert_message next_fails
send_message_succeeds new_id now user username room content w f h =
    ground (arith, exists-find (λ (m : MessageRow). m.id == new_id) w.db.messages)

send_message_stores :
    (new_id : Uuid) (now : Time) (user : Uuid) (username : Text) (room : Uuid) (content : Text)
    (w : World) {m : Message}
    → (send_message new_id now user username room content w).0 ≡ ok m
    → (send_message new_id now user username room content w).1.db.messages
      ≡ row_of m ∷ w.db.messages
unfolding send_message validate insert_message
send_message_stores new_id now user username room content w h = ground arith

-- With the database at hand, a message is accepted exactly when its trimmed content is neither
-- empty nor over the limit, neither the content nor the user's name has U+0000, its id is new and the
-- room and the user exist; that the user is in the room, or may write, is not asked for. It is
-- stored with the content as sent, which may be longer than the limit by the spaces around it, and
-- the time to the microsecond, and the other messages are kept.
pub send_message_iff :
    (new_id : Uuid) (now : Time) (user : Uuid) (username : Text) (room : Uuid) (content : Text)
    (w : World)
    → w.faults ≡ []
    → ((is_ok (send_message new_id now user username room content w).0 ≡ true) ↔ (
        IsContent (trim_space content)
        × (has_nul content ≡ false)
        × (has_nul username ≡ false)
        × (message_with new_id w.db ≡ none)
        × (has_room room w.db ≡ true)
        × (has_user user w.db ≡ true)))
      × ((m : Message)
          → (send_message new_id now user username room content w).0 ≡ ok m
          → (m.content ≡ content)
            × (m.room_id ≡ room)
            × (m.user_id ≡ user)
            × (m.created_at ≡ now)
            × ((row_of m).created_at ≡ timestamptz now)
            × ((send_message new_id now user username room content w).1.db.messages
                ≡ row_of m ∷ w.db.messages))
unfolding send_message validate insert_message
send_message_iff new_id now user username room content w f = (
  (
    send_message_allowed new_id now user username room content w,
    send_message_succeeds new_id now user username room content w f,
  ),
  λ m h. (
    ground arith,
    ground arith,
    ground arith,
    ground arith,
    ground arith,
    send_message_stores new_id now user username room content w h,
  ),
)
