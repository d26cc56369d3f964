-- ===== src/App/UserService.antt =====
-- internal/app/user_service.go.
use chat_back.Prelude.{ℕ, Bool, List}
use chat_back.Text.{Text}
use chat_back.Domain.{Uuid, Time, User}
use chat_back.Store.{Query}
use chat_back.Postgres.UserRepo

unfoldable pub get_by_id : Uuid → Query User
unfolding UserRepo.get_by_id
get_by_id id = UserRepo.get_by_id id

unfoldable pub update_profile : Time → Uuid → Text → Query (Unit {0})
unfolding UserRepo.update_profile
update_profile now id display_name = UserRepo.update_profile now id display_name

unfoldable pub save_avatar : Time → Uuid → List ℕ → Text → Query (Unit {0})
unfolding UserRepo.save_avatar
save_avatar now id image mime = UserRepo.save_avatar now id image mime

unfoldable pub get_avatar : Uuid → Query (List ℕ × Text)
unfolding UserRepo.get_avatar
get_avatar id = UserRepo.get_avatar id

unfoldable pub search : (Text → Text → Bool) → Text → Uuid → Query (List User)
unfolding UserRepo.search
search ilike q exclude = UserRepo.search ilike q exclude
