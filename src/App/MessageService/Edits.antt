-- ===== src/App/MessageService/Edits.antt =====
-- `MessageService.Edit` and `MessageService.DeleteByID`: what changes, and by whose hand.
use chat_back.Prelude.{
  ◌≤◌, true, false, List, [], ◌∷◌, Option, none, some, ◌==◌, ◌≡◌, ◌↔◌, arith, if◌then◌else◌,
  find_row, update_where, delete_where, exists-find,
}
use chat_back.Text.{Text, is_empty, trim_space, byte_len, has_nul}
use chat_back.Domain.{Uuid, Time, Error, max_message_length}
use chat_back.Store.{World, err, is_ok, MessageRow, next_fails, later_faults, timestamptz}
use chat_back.Postgres.MessageRepo.{message_with}
use chat_back.App.MessageService.{edit}

-- The row with the edit's content and time.
abbrev pub edited : Text → Time → Option MessageRow → Option MessageRow
edited content now none = none
edited content now (some r) =
    some (record r { content = content; edited_at = some (timestamptz now) })

-- A text that a message may have.
abbrev pub IsContent : Text → Type 0
IsContent t = (is_empty t ≡ false) × (byte_len t ≤ max_message_length)

abbrev pub author_of : Option MessageRow → Option Uuid
author_of none = none
author_of (some r) = some r.user_id

find_row-update :
    (id j : Uuid) (t : Text) (now : Time) (rows : List MessageRow)
    → find_row
        (λ (m : MessageRow). m.id == j)
        (update_where
          (λ (m : MessageRow). m.id == id)
          (λ m. record m { content = t; edited_at = some (timestamptz now) })
          rows)
      ≡ (if j == id
          then edited t now (find_row (λ (m : MessageRow). m.id == j) rows)
          else find_row (λ (m : MessageRow). m.id == j) rows)
find_row-update id j t now [] = ground arith
find_row-update id j t now (r ∷ rows) = ground (arith, find_row-update id j t now rows)

pub find_row-delete :
    (id j : Uuid) (rows : List MessageRow)
    → find_row (λ (m : MessageRow). m.id == j) (delete_where (λ (m : MessageRow). m.id == id) rows)
      ≡ (if j == id then none else find_row (λ (m : MessageRow). m.id == j) rows)
find_row-delete id j [] = ground arith
find_row-delete id j (r ∷ rows) = ground (arith, find_row-delete id j rows)

edit_allowed :
    (now : Time) (id user : Uuid) (content : Text) (w : World)
    → is_ok (edit now id user content w).0 ≡ true
    → IsContent (trim_space content)
      × (has_nul (trim_space content) ≡ false)
      × (author_of (message_with id w.db) ≡ some user)
unfolding edit
edit_allowed now id user content w h = ground arith

edit_changes :
    (now : Time) (id user : Uuid) (content : Text) (w : World)
    → is_ok (edit now id user content w).0 ≡ true
    → (j : Uuid)
    → message_with j (edit now id user content w).1.db ≡ (
        if j == id
        then edited (trim_space content) now (message_with j w.db)
        else message_with j w.db)
unfolding edit
edit_changes now id user content w h j =
    ground (arith, find_row-update id j (trim_space content) now w.db.messages)

edit_succeeds :
    (now : Time) (id user : Uuid) (content : Text) (w : World)
    → w.faults ≡ []
    → IsContent (trim_space content)
      × (has_nul (trim_space content) ≡ false)
      × (author_of (message_with id w.db) ≡ some user)
    → is_ok (edit now id user content w).0 ≡ true
unfolding edit next_fails later_faults
edit_succeeds now id user content w f h =
    ground (arith, exists-find (λ (m : MessageRow). m.id == id) w.db.messages)

-- With the database at hand, an edit succeeds exactly when the trimmed content is neither empty nor
-- over the limit and has no U+0000, and the message is there and the user's own. It then sets the
-- content of that message to the trimmed text and the time of its edit to the microsecond, and
-- changes no other message.
pub edit_iff :
    (now : Time) (id user : Uuid) (content : Text) (w : World)
    → w.faults ≡ []
    → ((is_ok (edit now id user content w).0 ≡ true) ↔ (
        IsContent (trim_space content)
        × (has_nul (trim_space content) ≡ false)
        × (author_of (message_with id w.db) ≡ some user)))
      × (is_ok (edit now id user content w).0 ≡ true
          → (j : Uuid)
          → message_with j (edit now id user content w).1.db ≡ (
              if j == id
              then edited (trim_space content) now (message_with j w.db)
              else message_with j w.db))
edit_iff now id user content w f = (
  (edit_allowed now id user content w, edit_succeeds now id user content w f),
  edit_changes now id user content w,
)

-- Whichever calls do not reach the database, an edit that fails leaves the tables as they were.
pub edit_fails :
    (now : Time) (id user : Uuid) (content : Text) (w : World) {e : Error}
    → (edit now id user content w).0 ≡ err e
    → (edit now id user content w).1.db ≡ w.db
unfolding edit
edit_fails now id user content w h = ground arith
