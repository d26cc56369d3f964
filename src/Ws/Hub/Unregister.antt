-- ===== src/Ws/Hub/Unregister.antt =====
-- `unregister` as a whole: the client is out of every room and voice room, its channel is closed,
-- the invariant holds again, and nothing panics.
mod VoiceRooms
use chat_back.Prelude.{
  ◌≡◌, refl, arith, ap, ◌∙◌, Bool, true, false, not, ◌&&◌, ◌||◌, List, [], ◌∷◌, ◌==◌, contains,
  remove, keys, contains-add, contains-remove, contains-nil, contains-cons, ==_iff, ==_refl,
  Bool-cases, inl, inr,
}
use chat_back.Domain.{Uuid, Time}
use chat_back.Ws.State.{ClientId, Client, Hub, members, voice_members, tell, set_offline}
use chat_back.Ws.State.Sends.{Runs, Runs-bind, send_all_runs}
use chat_back.Ws.Voice.{take_out_of_voice, handle_voice_leave}
use chat_back.Ws.Voice.Participants.{voice_members-take_out, clients-take_out}
use chat_back.Ws.Hub.{
  room_peers, peers_in, union, leave_rooms, leave_voice_rooms, close_send, unregister,
  send_presence_to,
}
use chat_back.Ws.Hub.WellFormed.{
  IsWellFormed, members-quiet, voice_members-quiet, quiet-rooms, quiet-closed, tell-IsWellFormed,
  quiet-IsWellFormed,
}
use chat_back.Ws.Hub.Leaving.{
  IsLeaving, close-IsLeaving, quiet-IsLeaving, take_out-IsLeaving, leave_rooms-IsLeaving,
  clients-leave_rooms, rooms-leave_rooms, closed-leave_rooms, voice_members-keys,
}
use chat_back.Ws.Hub.Unregister.VoiceRooms.{
  HasLeft, heap-take_out, voice_leave_runs, leave_voice_rooms_runs,
}

-- Once `c` is in no room and no voice room, the invariant holds again.
left-IsWellFormed :
    (c : ClientId) (h : Hub)
    → IsLeaving c h
    → ((r : Uuid) → contains r (h.heap c).rooms ≡ false)
    → ((r : Uuid) → contains c (voice_members r h) ≡ false)
    → IsWellFormed h
left-IsWellFormed c h wf no_room no_voice = record {
  mirror = wf.mirror;
  live = λ d r i. elim (Bool-cases (d == c)) [
    | inl same ↦ absurd (
        ground (
          arith,
          ap (λ (x : ClientId). contains x (members r h)) ((==_iff d c).0 same),
          wf.mirror c r,
          no_room r,
        ))
    | inr differs ↦ wf.live d r differs i
  ];
  live_voice = λ d r i. elim (Bool-cases (d == c)) [
    | inl same ↦ absurd (
        ground (
          arith,
          ap (λ (x : ClientId). contains x (voice_members r h)) ((==_iff d c).0 same),
          no_voice r,
        ))
    | inr differs ↦ wf.live_voice d r differs i
  ];
  unclosed = wf.unclosed;
  some_one = wf.some_one;
  bounded = wf.bounded;
}

contains-union :
    (d : ClientId) (s t : List ClientId) → contains d (union s t) ≡ (contains d s || contains d t)
contains-union d [] t = ground (arith, contains-nil d)
contains-union d (c ∷ s) t =
    ground (arith, contains-add d c (union s t), contains-union d s t, contains-cons d c s)

-- Who hears of the leaving: other clients, all of them registered.
peers_live :
    (c d : ClientId) (rooms : List Uuid) (h : Hub)
    → IsWellFormed h
    → contains d (peers_in c rooms h) ≡ true
    → (contains d h.clients ≡ true) × ((d == c) ≡ false)
unfolding peers_in
peers_live c d [] h wf i = absurd (ground (arith, contains-nil d))
peers_live c d (room ∷ rooms) h wf i = ground (
  arith,
  wf.live d room,
  contains-union d (remove c (members room h)) (peers_in c rooms h),
  contains-remove d c (members room h),
  peers_live c d rooms h wf,
)

-- The hub once `c` is out of it.
pub record IsOut (c : ClientId) (h h' : Hub) : Type 0 where
  pub well_formed : IsWellFormed h'
  pub clients : h'.clients ≡ remove c h.clients
  pub no_room : (r : Uuid) → contains c (members r h') ≡ false
  pub no_voice : (r : Uuid) → contains c (voice_members r h') ≡ false
  pub is_closed : (h'.heap c).closed ≡ true

excluded : (b : Bool) → (not b && b) ≡ false
excluded true = refl
excluded false = refl

close_heap :
    (c : ClientId) (h : Hub) → (close_send c h).heap c ≡ record (h.heap c) { closed = true }
close_heap c h = rw (==_refl c)

-- After the loops over the rooms and the voice rooms.
left_runs :
    (c : ClientId) (h : Hub)
    → IsWellFormed h
    → let h₁ =
        leave_rooms c (h.heap c).rooms (close_send c (record h { clients = remove c h.clients })) in
      Runs (leave_voice_rooms c (keys h₁.voice_rooms) h₁) (IsOut c h)
left_runs c h wf =
    let h₀ = close_send c (record h { clients = remove c h.clients }) in
    let h₁ = leave_rooms c (h.heap c).rooms h₀ in
    let wf₁ = leave_rooms-IsLeaving c (h.heap c).rooms h₀ (close-IsLeaving c h wf) in
    let (h₂, e, p) = leave_voice_rooms_runs c (keys h₁.voice_rooms) h₁ wf₁ in
    let closed = close_heap c (record h { clients = remove c h.clients }) in
    let no_joined : (r : Uuid) → contains r (h₂.heap c).rooms ≡ false = λ r. rw p.rooms_of (
      no_rooms r h₁ (rooms-leave_rooms c (h.heap c).rooms h₀ r)
        (ap (λ (k : Client). k.rooms) closed)) in
    let no_voice : (r : Uuid) → contains c (voice_members r h₂) ≡ false =
      λ r. no_voice_left r h₁ h₂ (p.out r) in
    (
      h₂,
      e,
      record {
        well_formed = left-IsWellFormed c h₂ p.leaving no_joined no_voice;
        clients = p.clients ∙ clients-leave_rooms c (h.heap c).rooms h₀;
        no_room = λ r. p.leaving.mirror c r ∙ no_joined r;
        no_voice = no_voice;
        is_closed =
            p.closed_of
            ∙ closed-leave_rooms c (h.heap c).rooms h₀
            ∙ ap (λ (k : Client). k.closed) closed;
      },
    )
  where
    no_rooms :
        (r : Uuid) (h₁ : Hub)
        → contains r (h₁.heap c).rooms ≡ (
            not (contains r (h.heap c).rooms)
            && contains r ((close_send c (record h { clients = remove c h.clients })).heap c).rooms)
        → ((close_send c (record h { clients = remove c h.clients })).heap c).rooms
          ≡ (h.heap c).rooms
        → contains r (h₁.heap c).rooms ≡ false
    no_rooms r h₁ e e' = e ∙ rw e' (excluded (contains r (h.heap c).rooms))

    no_voice_left :
        (r : Uuid) (h₁ h₂ : Hub)
        → (contains c (voice_members r h₂) ≡ true
            → (contains c (voice_members r h₁) ≡ true) × (contains r (keys h₁.voice_rooms) ≡ false))
        → contains c (voice_members r h₂) ≡ false
    no_voice_left r h₁ h₂ out = elim (Bool-cases (contains c (voice_members r h₂))) [
      | inr outside ↦ outside
      | inl inside ↦ absurd (ground (arith, out inside, voice_members-keys c r h₁ (out inside).0))
    ]

presence_runs :
    (now : Time) (c : ClientId) (h h₂ : Hub)
    → IsWellFormed h
    → IsOut c h h₂
    → Runs
        (send_presence_to
          (room_peers c h)
          (h.heap c).user_id
          (h.heap c).username
          now
          (tell (set_offline (h.heap c).user_id) h₂))
        (IsOut c h)
unfolding send_presence_to room_peers members voice_members
presence_runs now c h h₂ wf p =
    let h₃ = tell (set_offline (h.heap c).user_id) h₂ in
    let wf₃ = tell-IsWellFormed (set_offline (h.heap c).user_id) h₂ p.well_formed in
    let (h', e, q) =
      send_all_runs (peers_in c (h.heap c).rooms h) _ h₃ (λ d i.
        wf₃.unclosed d (rw p.clients (staying d (peers_live c d (h.heap c).rooms h wf i)))) in
    (
      h',
      e,
      record {
        well_formed = quiet-IsWellFormed h₃ h' q wf₃;
        clients = q.clients ∙ p.clients;
        no_room = λ r. ap (contains c) (members-quiet h₃ h' r q ∙ members-tell r h₂) ∙ p.no_room r;
        no_voice = λ r.
            ap (contains c) (voice_members-quiet h₃ h' r q ∙ voice_members-tell r h₂)
            ∙ p.no_voice r;
        is_closed = quiet-closed h₃ h' c q ∙ p.is_closed;
      },
    )
  where
    staying :
        (d : ClientId)
        → (contains d h.clients ≡ true) × ((d == c) ≡ false)
        → contains d (remove c h.clients) ≡ true
    staying d l = ground (arith, contains-remove d c h.clients)

    members-tell :
        (r : Uuid) (k : Hub) → members r (tell (set_offline (h.heap c).user_id) k) ≡ members r k
    members-tell r k = refl

    voice_members-tell :
        (r : Uuid) (k : Hub)
        → voice_members r (tell (set_offline (h.heap c).user_id) k) ≡ voice_members r k
    voice_members-tell r k = refl

-- A registered client that leaves a well-formed hub is out of it: it is no longer registered, is
-- in no room and in no voice room, and its channel is closed. Nothing panics on the way, and the
-- invariant holds again, so every other client's channel is open.
pub unregister_runs :
    (now : Time) (c : ClientId) (h : Hub)
    → IsWellFormed h
    → contains c h.clients ≡ true
    → Runs (unregister now c h) (IsOut c h)
unfolding unregister
unregister_runs now c h wf reg =
    rw (reg, wf.unclosed c reg)
      (Runs-bind _ _ (IsOut c h) (IsOut c h) (left_runs c h wf)
        (λ h₂ p. presence_runs now c h h₂ wf p))
