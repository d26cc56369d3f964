-- ===== src/Lib.antt =====
-- chat-back: the server of a chat, in Go. Clients hold WebSocket connections to a hub and call an
-- HTTP API; both go through services to PostgreSQL, and frames travel between servers over Redis.
--
-- The files and the code that they model:
--   Config              internal/config/config.go: the environment and its lists
--   Domain              internal/domain: rooms, roles, invites, messages, users, errors, Validate
--   Text                Go strings: code points, byte lengths, and what is used of the package
--                       strings
--   Store               migrations/*.sql: the tables, their references, and a call of the driver
--   Postgres            internal/adapter/outbound/postgres: room_repo, invite_repo, message_repo,
--                       friend_repo and user_repo; one function for each method, its SQL as an
--                       operation on the tables. AdminRepo has the statements of admin_handler
--   App                 internal/app: room_service, message_service, chat_service, friend_service
--                       and user_service; App/Sound is what they keep true of the tables
--   RateLimit           internal/middleware/ratelimit.go
--   Auth                internal/middleware/jwt.go, and the tags and tokens of auth_handler
--   Ws                  internal/adapter/inbound/ws: protocol, client and hub; Ws/State is the
--                       hub's state, Ws/Rooms and Ws/Voice its handlers, Ws/Hub its loop
--   Http                internal/adapter/inbound/http: a module for each of its handlers, and
--                       Http/Server for server.go and middleware.go: what a request passes on its
--                       way
--   Startup             cmd/server/main.go: the seeding of the demo and the slots of Redis
--   Prelude             lists, sets and maps with number keys, and Boolean tests
--   Tests               runs on sample data
--
-- How they interact. A repository method and a service method are functions of the `World`,
-- which is the tables and a list that says of each call to come whether it fails to reach the
-- database; they return a result or a Go error and the next world. A call that fails to reach
-- the database changes nothing; that a statement takes effect and only its reply is lost is not
-- modelled. The services call the repositories, the hub and the HTTP handlers call the services.
-- The hub's state has the registered clients, the sets of the rooms and voice rooms, a store of
-- the client objects, which the hub and the pumps share, the world, and a log of what is asked
-- of Redis. A handler of the hub returns `none` where the code panics, which is at a send on a
-- closed channel. `Ws.Hub.step` is one round of the loop in `Run`, and `Ws.Hub.Reach.Reaches`
-- has the states that rounds, new connections and the pumps lead to. What `uuid.New()`,
-- `time.Now()` and `rand` return are arguments. `Http.Server.Serve.serve` is a request's whole
-- way: the limits, the token, the handler; its answer is cut to the status and the frames.
--
-- Bounds. Times are numbers of nanoseconds since Go's zero time; a `time.Duration` stops at the
-- largest 64-bit value, as `time.Since` does. Lengths of messages are in bytes of UTF-8. A send
-- queue holds 256 frames. The buckets of the limiters count in natural numbers, which are those of
-- Go's integers for the limiters that `RateLimit.IsCounted` admits, the four of the server among
-- them (`Tests.Limiter.limits-IsCounted`). Nothing runs on fuel but `walk`, which counts requests.
--
-- PostgreSQL's own rules are written into the statements: the keys, references and checks of the
-- tables; that a `timestamptz` keeps whole microseconds (`Store.timestamptz`); and that a text with
-- U+0000 is refused, by the statements that write text. Those that only look a text up, an address
-- or the name and tag of a search, are without this last error: no row has such a text.
--
-- Other code that the program calls is an interface that the definitions take: golang-jwt with the
-- RSA key and the texts of UUIDs (`Auth.Jwt`), bcrypt (`Http.Auth.Bcrypt`), the codecs and colours of
-- images (`Http.Users.Imaging`), how PostgreSQL compares texts and matches ILIKE, and
-- net.SplitHostPort. What is relied on of the first two is `Auth.JwtLaws` and `Http.Auth.BcryptLaws`.
--
-- Not modelled: the wiring of cmd/server/main.go and its reading of key files; the Redis adapters
-- and the presence service, whose calls the hub's log has; fixed headers and the log of requests;
-- JSON, HTTP, UUID parsing and TLS, which are libraries. What they make of a request is an argument
-- of the handlers. The order in which Go ranges over a map is that of the model's list. The
-- transport of a frame to the other servers ends at the log.
pub mod Prelude
pub mod Text
pub mod RateLimit
pub mod Domain
pub mod Config
pub mod Store
pub mod Postgres
pub mod App
pub mod Ws
pub mod Auth
pub mod Http
pub mod Startup
pub mod Tests
