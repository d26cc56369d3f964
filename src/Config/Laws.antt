-- ===== src/Config/Laws.antt =====
-- The lists of the environment.
use Prim.Native.String.{String}
use chat_back.Prelude.{
  ◌≡◌, ◌≢◌, ◌↔◌, false, List, [], none, some, arith, All, refl, Bool-cases, Option-cases, inl, inr,
}
use chat_back.Text.{Text, is_empty}
use chat_back.Text.Split.{join, join-split, split-join, split_some, Lacks}
use chat_back.Config.{
  Environment, Config, get_env, must_env, split_env, load, comma, default_origins,
  default_redis_addrs,
}

-- A list that is written into the environment, joined by commas, is read back as it was: for any
-- entries without commas, the list not empty and not a single empty entry.
pub split_env-join :
    (env : Environment) (key : String) (fallback : Text) (parts : List Text)
    → env key ≡ join comma parts
    → is_empty (join comma parts) ≡ false
    → parts ≢ []
    → All (Lacks comma) parts
    → split_env env key fallback ≡ parts
unfolding split_env get_env
split_env-join env key fallback parts e ne some_part lacks =
    rw (e, ne, ne) (split-join comma parts some_part lacks)

get_env-is_empty :
    (env : Environment) (key : String) (fallback : Text)
    → is_empty fallback ≡ false
    → is_empty (get_env env key fallback) ≡ false
unfolding get_env
get_env-is_empty env key fallback h = ground arith

-- A list with a default is never empty, and is the variable that is set, or the default, cut up.
split_env-join_lem :
    (env : Environment) (key : String) (fallback : Text)
    → is_empty fallback ≡ false
    → (split_env env key fallback ≢ [])
      × (join comma (split_env env key fallback) ≡ get_env env key fallback)
unfolding split_env
split_env-join_lem env key fallback h =
    rw (get_env-is_empty env key fallback h)
      (split_some comma (get_env env key fallback), join-split comma (get_env env key fallback))

load_with :
    (env : Environment) (c : Config)
    → load env ≡ some c
    → (is_empty (env "DATABASE_URL") ≡ false)
      × (c.redis_addrs ≡ split_env env "REDIS_ADDRS" default_redis_addrs)
      × (c.allowed_origins ≡ split_env env "ALLOWED_ORIGINS" default_origins)
unfolding load must_env
load_with env c e = elim (Bool-cases (is_empty (env "DATABASE_URL"))) [
  | inl unset ↦ absurd (ground arith)
  | inr set ↦ (set, ground arith, ground arith)
]

load_starts : (env : Environment) → is_empty (env "DATABASE_URL") ≡ false → load env ≢ none
unfolding load must_env
load_starts env h = ground arith

-- The server starts with a configuration exactly if the database's address is set; it then has an
-- address of Redis and an origin, and each list joined is the variable, or the default.
pub load_iff :
    (env : Environment)
    → ((load env ≢ none) ↔ (is_empty (env "DATABASE_URL") ≡ false))
      × ((c : Config)
          → load env ≡ some c
          → (c.redis_addrs ≢ [])
            × (c.allowed_origins ≢ [])
            × (join comma c.redis_addrs ≡ get_env env "REDIS_ADDRS" default_redis_addrs)
            × (join comma c.allowed_origins ≡ get_env env "ALLOWED_ORIGINS" default_origins))
load_iff env = (
  (
    λ starts. elim (Option-cases (load env)) [
      | inl e ↦ absurd (starts e)
      | inr (c, e) ↦ (load_with env c e).0
    ],
    load_starts env,
  ),
  λ c e.
      let (_, redis, origins) = load_with env c e in
      let (redis_some, redis_joined) =
        split_env-join_lem env "REDIS_ADDRS" default_redis_addrs refl in
      let (origins_some, origins_joined) =
        split_env-join_lem env "ALLOWED_ORIGINS" default_origins refl in
      rw (redis, origins) (redis_some, origins_some, redis_joined, origins_joined),
)
