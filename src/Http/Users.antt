-- ===== src/Http/Users.antt =====
-- internal/adapter/inbound/http/user_handler.go. The multipart form, `image.Decode` and
-- `jpeg.Encode` are of Go's library: parameters of `upload_avatar`, with the colours of images.
pub mod Resize
pub mod Profile
use chat_back.Prelude.{
  ℕ, Bool, true, false, not, List, [], ◌∷◌, ◌++◌, Option, none, some, ltb, length, ◌&&◌,
  if◌then◌else◌,
}
use chat_back.Text.{Text, text_eq, trim_space}
use chat_back.Text.Split.{codes}
use chat_back.Domain.{Uuid, uuid_nil, Time, Error, not_found, User}
use chat_back.Store.{World, Result, ok, err}
use chat_back.Ws.Protocol.{literal}
use chat_back.App.UserService
use chat_back.Http.{
  Caller, Param, given, absent, malformed, Body, no_body, Response, answer, fail, fail_internal,
}
use chat_back.Http.Rooms.{respond}
use chat_back.Http.Users.Resize.{Image, resize_to_128}

-- Any error of `GetByID`, not only that there is no such user.
abbrev fail_user : Error → Response User
fail_user _ = fail 404 (literal "user not found")

unfoldable pub me : Caller → World → Response User × World
unfolding UserService.get_by_id
me caller w = respond 200 fail_user (UserService.get_by_id caller.user_id w)

-- The zero value of `domain.User`, which `GetByID` returns with an error of the driver.
abbrev pub zero_user : User
zero_user = record {
  id = uuid_nil;
  username = [];
  tag = [];
  display_name = [];
  email = [];
  has_avatar = false;
  created_at = 0;
  updated_at = 0;
}

-- The second read's error is dropped: the body is `null` for ErrNotFound, else the zero user.
abbrev body_of : Result User → Option User
body_of (ok u) = some u
body_of (err not_found) = none
body_of (err _) = some zero_user

abbrev send_user : Result User × World → Response (Option User) × World
send_user (r, w) = (answer 200 (body_of r), w)

abbrev then_read : Uuid → Result (Unit {0}) × World → Response (Option User) × World
then_read id (ok _, w) = send_user (UserService.get_by_id id w)
then_read id (err _, w) = (fail 500 (literal "internal"), w)

unfoldable pub update_profile : Time → Caller → Param Text → World → Response (Option User) × World
unfolding UserService.update_profile UserService.get_by_id trim_space
update_profile now caller (given display_name) w =
    let name = trim_space display_name in
    if ltb 32 (length name)
    then (fail 400 (literal "display_name too long (max 32)"), w)
    else then_read caller.user_id (UserService.update_profile now caller.user_id name w)
update_profile now caller _ w = (fail 400 (literal "invalid body"), w)

-- The form of the request: too large to be parsed, without the field, or with a file.
pub data AvatarForm : Type 0 where
  too_large no_file : AvatarForm
  file : (content_type : Text) → (content : List ℕ) → AvatarForm

abbrev pub jpeg : Text
jpeg = codes "image/jpeg"

abbrev pub avatar_url : (Uuid → Text) → Uuid → Text
avatar_url uuid_string id = codes "/api/users/" ++ uuid_string id ++ codes "/avatar"

abbrev after_save : Text → Result (Unit {0}) × World → Response Text × World
after_save url (ok _, w) = (answer 200 url, w)
after_save url (err _, w) = (fail 500 (literal "internal"), w)

-- What the upload takes of Go's library.
pub record Imaging (Color : Type 0) : Type 0 where
  pub nrgba : Color → Color
  pub blank : Color
  pub decode : List ℕ → Option (Image Color)
  pub encode : Image Color → Option (List ℕ)
  pub uuid_string : Uuid → Text

module _ {Color : Type 0} (lib : Imaging Color) where
  unfoldable pub upload_avatar : Time → Caller → AvatarForm → World → Response Text × World
  unfolding UserService.save_avatar resize_to_128 text_eq
  upload_avatar now caller too_large w = (fail 400 (literal "file too large (max 2MB)"), w)
  upload_avatar now caller no_file w = (fail 400 (literal "missing avatar field"), w)
  upload_avatar now caller (file content_type content) w =
      if not (text_eq content_type jpeg) && not (text_eq content_type (codes "image/png"))
      then (fail 400 (literal "only jpeg and png supported"), w)
      else elim (lib.decode content) [
        | none ↦ (fail 400 (literal "invalid image"), w)
        | some img ↦ elim (lib.encode (resize_to_128 lib.nrgba lib.blank img)) [
          | none ↦ (fail 500 (literal "internal"), w)
          | some bytes ↦
              after_save (avatar_url lib.uuid_string caller.user_id)
                (UserService.save_avatar now caller.user_id bytes jpeg w)
        ]
      ]

-- The image and its type, or 404.
abbrev pub send_avatar : Result (List ℕ × Text) × World → Response (List ℕ × Text) × World
send_avatar (ok ([], mime), w) = (fail 404 (literal "404 page not found"), w)
send_avatar (ok (b ∷ bs, mime), w) = (answer 200 (b ∷ bs, mime), w)
send_avatar (err _, w) = (fail 404 (literal "404 page not found"), w)

unfoldable pub serve_avatar : Param Uuid → World → Response (List ℕ × Text) × World
unfolding UserService.get_avatar
serve_avatar (given id) w = send_avatar (UserService.get_avatar id w)
serve_avatar _ w = (fail 404 (literal "404 page not found"), w)
