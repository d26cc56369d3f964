-- ===== src/Http/Server/Access.antt =====
-- A request on its way through server.go: what it may change, and how it is refused.
use chat_back.Prelude.{
  ℕ, Bool, false, Option, none, some, ◌&&◌, ◌⊎◌, ◌≡◌, if◌then◌else◌, arith, refl, is_some,
  Bool-cases, Option-cases, inl, inr,
}
use chat_back.Text.{Text}
use chat_back.Store.{World}
use chat_back.RateLimit.Client.{rate_limit}
use chat_back.Auth.{Identity, authenticate}
use chat_back.Http.{Caller}
use chat_back.Http.Server.{
  AdminRoute, Endpoint, auth, protected, admin, avatar, socket, health, preflight, Incoming, Moment,
  Library, Limits, stop, caller_of,
}
use chat_back.Http.Server.Serve.{is_preflight, serve, dispatch, serve_admin}
use chat_back.Http.Server.Guards.{
  is_write, is_admin_write, is_register, route_reads, admin_reads, auth_reads, avatar_reads,
  socket_reads,
}
use chat_back.Http.Admin.{require_admin}

module _ {Color : Type 0} (lib : Library Color) (demo_email : Text) (m : Moment) where
  -- Whose token the request has.
  abbrev pub who : Incoming → Option Identity
  who r = authenticate lib.jwt m.later r.authorization r.token

  abbrev pub is_admin : Option Identity → Bool
  is_admin none = false
  is_admin (some i) = i.is_admin

  -- A registration, a request of a user by a method other than GET, and such a request of an admin.
  abbrev pub may_change : Incoming → Endpoint → Bool
  may_change r (auth route) = is_register route
  may_change r (protected route) = is_some (who r) && is_write route
  may_change r (admin route) = is_admin (who r) && is_admin_write route
  may_change r _ = false

  pub dispatch_keeps :
      (r : Incoming) (e : Endpoint) (l : Limits) (w : World)
      → may_change r e ≡ false
      → (dispatch lib demo_email m r e l w).2.db ≡ w.db
  unfolding dispatch
  dispatch_keeps r (auth route) l w h = ground (arith, auth_reads lib demo_email m route w h)
  dispatch_keeps r (protected route) l w h = elim (Option-cases (who r)) [
    | inl unknown ↦ ground arith
    | inr (i, known) ↦ ground (arith, route_reads lib demo_email m (caller_of i) route w)
  ]
  dispatch_keeps r (admin route) l w h = elim (Option-cases (who r)) [
    | inl unknown ↦ ground arith
    | inr (i, known) ↦ ground (arith, admin_reads lib demo_email m (caller_of i) route w)
  ]
  dispatch_keeps r (avatar p) l w h = avatar_reads lib demo_email m p w
  dispatch_keeps r (socket accepted) l w h = socket_reads lib demo_email m r.token accepted w
  dispatch_keeps r health l w h = refl
  dispatch_keeps r preflight l w h = refl

  -- Whichever calls do not reach the database, a request leaves every table as it was, unless it is a
  -- registration, a request by a method other than GET with a valid token, or such a request for
  -- an admin's route with an admin's token.
  pub serve_keeps :
      (r : Incoming) (l : Limits) (w : World)
      → may_change r r.endpoint ≡ false
      → (serve lib demo_email m r l w).2.db ≡ w.db
  unfolding serve
  serve_keeps r l w h = elim (Bool-cases (is_preflight lib demo_email m r.endpoint)) [
    | inl asked ↦ rw (serve, asked) refl
    | inr other ↦
        elim (Bool-cases (rate_limit lib.split_host_port r.client m.since m.now l.global).1) [
          | inl allowed ↦ rw (serve, other, allowed) (dispatch_keeps r r.endpoint _ w h)
          | inr limited ↦ rw (serve, other, limited) refl
        ]
  ]

  -- With what a request is refused before its handler runs: 401 without a valid token, 403 for an
  -- admin's route with the token of somebody else.
  abbrev pub refusal : Incoming → Endpoint → Option ℕ
  refusal r (protected route) = if is_some (who r) then none else some 401
  refusal r (admin route) =
      if is_some (who r) then (if is_admin (who r) then none else some 403) else some 401
  refusal r _ = none

  admin_refuses :
      (c : Caller) (route : AdminRoute) (w : World)
      → c.is_admin ≡ false
      → serve_admin lib demo_email m c route w ≡ (stop 403, w)
  unfolding serve_admin require_admin
  admin_refuses c AdminRoute.all_users w h = ground arith
  admin_refuses c AdminRoute.all_rooms w h = ground arith
  admin_refuses c (AdminRoute.delete_user id) w h = ground arith
  admin_refuses c (AdminRoute.delete_any_room id) w h = ground arith
  admin_refuses c (AdminRoute.toggle_admin id body) w h = ground arith
  admin_refuses c (AdminRoute.rename_any_room id name) w h = ground arith
  admin_refuses c (AdminRoute.user_friends id) w h = ground arith

  dispatch_refuses :
      (r : Incoming) (e : Endpoint) (l : Limits) (w : World) (s : ℕ)
      → refusal r e ≡ some s
      → dispatch lib demo_email m r e l w ≡ (stop s, l, w)
  unfolding dispatch
  dispatch_refuses r (auth route) l w s h = absurd (ground arith)
  dispatch_refuses r (protected route) l w s h = elim (Option-cases (who r)) [
    | inl unknown ↦ ground arith
    | inr (i, known) ↦ absurd (ground arith)
  ]
  dispatch_refuses r (admin route) l w s h = elim (Option-cases (who r)) [
    | inl unknown ↦ ground arith
    | inr (i, known) ↦ ground (arith, admin_refuses (caller_of i) route w)
  ]
  dispatch_refuses r (avatar p) l w s h = absurd (ground arith)
  dispatch_refuses r (socket accepted) l w s h = absurd (ground arith)
  dispatch_refuses r health l w s h = absurd (ground arith)
  dispatch_refuses r preflight l w s h = absurd (ground arith)

  -- A request for a user's route without a valid token is answered by 401, one for an admin's
  -- route with the token of somebody else by 403, or either by 429 at the limit; nothing is
  -- published, and the world is as before: not even a call of the database is made.
  pub serve_refuses :
      (r : Incoming) (l : Limits) (w : World) (s : ℕ)
      → refusal r r.endpoint ≡ some s
      → (((serve lib demo_email m r l w).0 ≡ stop s)
          ⊎ ((serve lib demo_email m r l w).0 ≡ stop 429))
        × ((serve lib demo_email m r l w).2 ≡ w)
  unfolding serve
  serve_refuses r l w s h = elim (Bool-cases (is_preflight lib demo_email m r.endpoint)) [
    | inl asked ↦ absurd (ground arith)
    | inr other ↦
        elim (Bool-cases (rate_limit lib.split_host_port r.client m.since m.now l.global).1) [
          | inl allowed ↦
              rw (serve, other, allowed, dispatch_refuses r r.endpoint _ w s h) (inl refl, refl)
          | inr limited ↦ rw (serve, other, limited) (inr refl, refl)
        ]
  ]
