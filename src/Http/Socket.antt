-- ===== src/Http/Socket.antt =====
-- internal/adapter/inbound/http/ws_handler.go. What `websocket.Accept` does is an
-- argument: `none` if it upgrades the connection, else the status of its own answer.
use chat_back.Prelude.{ℕ, [], Option, none, some, if◌then◌else◌}
use chat_back.Text.{Text, is_empty}
use chat_back.Domain.{Uuid, Time, User}
use chat_back.Store.{World, Result, ok, err}
use chat_back.Auth.{Jwt, Identity, validate_token}
use chat_back.App.UserService
use chat_back.Http.Users.{avatar_url}

-- What the new client is made with.
pub record Opening : Type 0 where
  pub user_id : Uuid
  pub username : Text
  pub display_name : Text
  pub avatar_url : Text

pub data Outcome : Type 0 where
  unauthorized : Outcome
  not_upgraded : ℕ → Outcome
  opened : Opening → Outcome

module _ (j : Jwt) where
  -- An error of the lookup leaves the two texts empty.
  abbrev opening : Identity → Result User → Opening
  opening who (ok u) = record {
    user_id = who.user_id;
    username = who.username;
    display_name = u.display_name;
    avatar_url = if u.has_avatar then avatar_url j.uuid_string who.user_id else [];
  }
  opening who (err _) = record {
    user_id = who.user_id;
    username = who.username;
    display_name = [];
    avatar_url = [];
  }

  abbrev upgrade : Identity → Option ℕ → World → Outcome × World
  upgrade who accepted w = elim accepted [
    | none ↦ (let (r, w') = UserService.get_by_id who.user_id w in (opened (opening who r), w'))
    | some status ↦ (not_upgraded status, w)
  ]

  unfoldable pub handle : Time → Text → Option ℕ → World → Outcome × World
  unfolding validate_token UserService.get_by_id
  handle now token accepted w =
      if is_empty token then (unauthorized, w) else elim (validate_token j now token) [
        | none ↦ (unauthorized, w)
        | some who ↦ upgrade who accepted w
      ]
