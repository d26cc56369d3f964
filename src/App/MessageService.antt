-- ===== src/App/MessageService.antt =====
-- internal/app/message_service.go and chat_service.go. A Go `int` limit is `ℤ`-valued in the
-- source; the handler passes positive ones, and 0 stands for any limit that is not positive.
pub mod Edits
pub mod Sending
use chat_back.Prelude.{
  ℕ, Bool, true, false, not, List, [], Option, none, some, ◌==◌, ◌&&◌, ◌||◌, ltb, if◌then◌else◌,
}
use chat_back.Text.{Text, trim_space, is_empty, byte_len}
use chat_back.Domain.{
  Uuid, Time, Error, not_found, forbidden, bad_request, Message, validate, max_message_length,
}
use chat_back.Store.{
  Query, Result, ok, err, ◌>>=◌, ◌>>◌, return, throw, fail_if, replace_err, ignore,
}
use chat_back.Postgres.MessageRepo

abbrev pub default_page_size : ℕ
default_page_size = 50

unfoldable pub save : Message → Query (Unit {0})
unfolding validate MessageRepo.save
save m = elim (validate m) [ none ↦ MessageRepo.save m | some e ↦ throw e ]

unfoldable pub page_limit : ℕ → ℕ
page_limit limit = if limit == 0 || ltb 100 limit then default_page_size else limit

unfoldable pub history : (Uuid → Text) → Uuid → Uuid → ℕ → Query (List Message)
unfolding page_limit MessageRepo.list_before
history uuid_text room cursor limit =
    MessageRepo.list_before uuid_text room cursor (page_limit limit)

unfoldable pub get_by_id : Uuid → Query Message
unfolding MessageRepo.get_by_id
get_by_id id = MessageRepo.get_by_id id

unfoldable pub edit : Time → Uuid → Uuid → Text → Query Message
unfolding MessageRepo.get_by_id MessageRepo.update_content
edit now id user content = do
  let trimmed = trim_space content
  fail_if (is_empty trimmed || ltb max_message_length (byte_len trimmed)) bad_request
  msg ← MessageRepo.get_by_id id
  fail_if (not (msg.user_id == user)) forbidden
  MessageRepo.update_content id trimmed now
  return (record msg { content = trimmed; edited_at = some now })

unfoldable pub delete_by_id : Uuid → Query (Unit {0})
unfolding MessageRepo.delete
delete_by_id id = MessageRepo.delete id

-- `ChatService.SendMessage`
unfoldable pub send_message : Uuid → Time → Uuid → Text → Uuid → Text → Query Message
unfolding save
send_message new_id now user username room content = do
  let msg : Message = record {
    id = new_id;
    room_id = room;
    user_id = user;
    username = username;
    display_name = [];
    avatar_url = [];
    content = content;
    created_at = now;
    edited_at = none;
  }
  save msg
  return msg
