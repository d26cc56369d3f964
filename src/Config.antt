-- ===== src/Config.antt =====
-- internal/config/config.go. The environment is a function; an unset variable is the empty text,
-- as `os.Getenv` has it.
pub mod Laws
use Prim.Native.String.{String}
use chat_back.Prelude.{ℕ, List, [], Option, none, some, if◌then◌else◌}
use chat_back.Text.{Text, is_empty}
use chat_back.Text.Split.{codes, split}

abbrev pub Environment : Type 0
Environment = String → Text

pub record Config : Type 0 where
  pub port : Text
  pub database_url : Text
  pub redis_addrs : List Text
  pub redis_password : Text
  pub jwt_public_key_path : Text
  pub jwt_private_key_path : Text
  pub allowed_origins : List Text
  pub demo_user_email : Text
  pub demo_user_password : Text

unfoldable pub get_env : Environment → String → Text → Text
get_env env key fallback = if is_empty (env key) then fallback else env key

-- `none` is the panic.
unfoldable pub must_env : Environment → String → Option Text
must_env env key = if is_empty (env key) then none else some (env key)

abbrev pub comma : ℕ
comma = b','

unfoldable pub split_env : Environment → String → Text → List Text
unfolding get_env split
split_env env key fallback =
    let v = get_env env key fallback in if is_empty v then [] else split comma v

abbrev pub default_redis_addrs : Text
default_redis_addrs = codes "chat-redis-0.chat-redis.chat.svc.cluster.local:6379"

abbrev pub default_origins : Text
default_origins = codes "https://chat.jcrlabs.net"

unfoldable pub load : Environment → Option Config
unfolding get_env must_env split_env
load env = elim (must_env env "DATABASE_URL") [
  | none ↦ none
  | some url ↦ some (record {
    port = get_env env "PORT" (codes "8080");
    database_url = url;
    redis_addrs = split_env env "REDIS_ADDRS" default_redis_addrs;
    redis_password = get_env env "REDIS_PASSWORD" [];
    jwt_public_key_path = get_env env "JWT_PUBLIC_KEY_PATH" (codes ".keys/public.pem");
    jwt_private_key_path = get_env env "JWT_PRIVATE_KEY_PATH" (codes ".keys/private.pem");
    allowed_origins = split_env env "ALLOWED_ORIGINS" default_origins;
    demo_user_email = get_env env "DEMO_USER_EMAIL" (codes "demo@jcrlabs.net");
    demo_user_password = get_env env "DEMO_USER_PASSWORD" [];
  })
]
