-- ===== src/Tests/Requests.antt =====
-- Requests through the server, its limits and its configuration.
use chat_back.Prelude.{
  ℕ, ◌≡◌, ◌≢◌, ◌⊎◌, ◌↔◌, refl, arith, true, false, List, [], ◌∷◌, Option, some, none, All, map,
  contains,
}
use chat_back.Text.{Text, text_eq, is_empty, trim_space}
use chat_back.Text.Split.{codes, join}
use chat_back.RateLimit.{TokenBucket, new_token_bucket}
use chat_back.RateLimit.Client.{Request, run}
use chat_back.RateLimit.Forged.{Forged, request_of, AreNames, forged_admitted}
use chat_back.Config.{
  Environment, Config, load, get_env, comma, default_redis_addrs, default_origins,
}
use chat_back.Config.Laws.{load_iff}
use chat_back.Auth.{authenticate, extract_token}
use chat_back.Http.{given}
use chat_back.Http.Users.{Imaging}
use chat_back.Http.Server.{
  Incoming, Endpoint, protected, admin, Route, AdminRoute, Moment, Library, limits, stop,
}
use chat_back.Http.Server.Serve.{serve}
use chat_back.Http.Server.Sound.Requests.{serve-IsSound}
use chat_back.App.Sound.{IsSound}
use chat_back.Auth.Tokens.{claims_for, access_time}
use chat_back.Http.Server.Access.{serve_keeps, serve_refuses}
use chat_back.Tests.Sample.{alice, book, world}
use chat_back.Tests.Accounts.Signed.{jwt, bcrypt}

abbrev no_host : Text → Option Text
no_host _ = none

abbrev named : ℕ → Request
named n = record { forwarded = n ∷ []; remote_addr = [] }

-- Three requests at once from one address, of a limiter that gives one token a minute: the first
-- with one entry, the second with another proxy, the third with spaces around the name.
abbrev burst : List Forged
burst =
    (record { name = codes "1"; others = none; remote_addr = codes "a"; since = 900; now = 901 })
    ∷ (record {
      name = codes "2";
      others = some (codes " 1");
      remote_addr = codes "a";
      since = 902;
      now = 903;
    })
    ∷ (record {
      name = codes " 3 ";
      others = some [];
      remote_addr = codes "a";
      since = 904;
      now = 905;
    })
    ∷ []

abbrev limiter : TokenBucket
limiter = new_token_bucket 1 60000000000

burst-AreNames : AreNames burst limiter
unfolding contains trim_space text_eq new_token_bucket
burst-AreNames = (
  (refl, refl),
  refl,
  (refl, (refl, tt)),
  ((refl, refl), refl, (refl, tt), ((refl, refl), refl, tt, tt)),
)

forged_admitted_example : All (λ b. b ≡ true) (run no_host (map request_of burst) limiter)
unfolding new_token_bucket
forged_admitted_example =
    forged_admitted no_host burst limiter (ground arith, ground arith, ground arith) burst-AreNames

abbrev imaging : Imaging ℕ
imaging = record {
  nrgba = λ c. c;
  blank = 0;
  decode = λ _. none;
  encode = λ _. none;
  uuid_string = λ u. u ∷ [];
}

abbrev library : Library ℕ
library = record {
  jwt = jwt;
  bcrypt = bcrypt;
  imaging = imaging;
  before = text_eq;
  ilike = text_eq;
  split_host_port = no_host;
}

abbrev moment : Moment
moment = record { since = 900; now = 901; later = 902; new_id = 20; draws = [] }

abbrev token_of : Option Text → Text
token_of none = []
token_of (some t) = t

abbrev request : Endpoint → Incoming
request e = record { endpoint = e; client = named 49; authorization = []; token = []; origin = [] }

-- Without a token.
serve_keeps_example :
    (serve library [] moment (request (protected (Route.delete_room (given 10)))) limits world).2.db
    ≡ book
unfolding authenticate extract_token
serve_keeps_example =
    serve_keeps library [] moment (request (protected (Route.delete_room (given 10)))) limits world
      refl

serve_refuses_example :
    (((serve library [] moment (request (admin AdminRoute.all_users)) limits world).0 ≡ stop 401)
      ⊎ ((serve library [] moment (request (admin AdminRoute.all_users)) limits world).0
          ≡ stop 429))
    × ((serve library [] moment (request (admin AdminRoute.all_users)) limits world).2 ≡ world)
unfolding authenticate extract_token
serve_refuses_example =
    serve_refuses library [] moment (request (admin AdminRoute.all_users)) limits world 401 refl

abbrev parts : List Text
parts = codes "https://a.net" ∷ codes "http://localhost:3000" ∷ []

abbrev environment : Environment
environment _ = join comma parts

load_iff_example :
    ((load environment ≢ none) ↔ (is_empty (environment "DATABASE_URL") ≡ false))
    × ((c : Config)
        → load environment ≡ some c
        → (c.redis_addrs ≢ [])
          × (c.allowed_origins ≢ [])
          × (join comma c.redis_addrs ≡ get_env environment "REDIS_ADDRS" default_redis_addrs)
          × (join comma c.allowed_origins ≡ get_env environment "ALLOWED_ORIGINS" default_origins))
load_iff_example = load_iff environment

-- Alice, with a token, asks Dave to be a friend.
abbrev friend_request : Incoming
friend_request = record (request (protected (Route.send_request (given 4)))) {
  token = token_of (jwt.sign (claims_for jwt 900 access_time alice [] false));
}

book-IsSound : IsSound book
book-IsSound = ground arith

serve-IsSound_example : IsSound (serve library [] moment friend_request limits world).2.db
serve-IsSound_example = serve-IsSound library [] moment friend_request limits world book-IsSound
