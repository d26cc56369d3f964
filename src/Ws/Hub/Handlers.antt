-- ===== src/Ws/Hub/Handlers.antt =====
-- Every message of a registered client is handled without a panic, and the invariant is kept.
use chat_back.Prelude.{
  ◌≡◌, refl, arith, ◌∙◌, true, List, Option, none, some, contains, remove, Bool-cases, inl, inr,
  is_some, find_row, ◌==◌, contains-remove, find-contains,
}
use chat_back.Domain.{Uuid, Time, uuid_nil, Room, Message}
use chat_back.Store.{Result, ok, err}
use chat_back.App.RoomService
use chat_back.App.MessageService
use chat_back.Ws.Protocol.{literal, rendered, ClientMessage, ServerMessage}
use chat_back.Ws.State.{
  ClientId, Hub, members, voice_members, try_send, send_all, send_error, error_message, tell,
  publish,
}
use chat_back.Ws.State.Sends.{Runs, Runs-bind, try_send_open, sent, sent-IsQuiet, send_all_runs}
use chat_back.Ws.Rooms.{
  put_in, join_room, deliver_local, handle_chat, handle_typing, Entry, enter, refuse, after_entry,
  after_lookup, after_send, chat_frame, admission, room_joined,
}
use chat_back.Ws.Rooms.Members.{clients-put_in}
use chat_back.Ws.Voice.Participants.{clients-put_in_voice, clients-take_out}
use chat_back.Ws.Voice.{
  put_in_voice, take_out_of_voice, handle_voice_join, handle_voice_leave, relay_voice_signal,
  relay_to, user_of,
}
use chat_back.Ws.Hub.WellFormed.{
  IsWellFormed, quiet-IsWellFormed, put_in-IsWellFormed, world-IsWellFormed, tell-IsWellFormed,
  put_in_voice-IsWellFormed, take_out-IsWellFormed,
}

-- What every handler keeps: the invariant, and who is registered.
pub record Keeps (h h' : Hub) : Type 0 where
  pub well_formed : IsWellFormed h'
  pub clients : h'.clients ≡ h.clients

pub send-Keeps :
    (c : ClientId) (m : ServerMessage) (h : Hub)
    → IsWellFormed h
    → contains c h.clients ≡ true
    → Runs (try_send c m h) (Keeps h)
send-Keeps c m h wf reg = (
  sent c m h,
  try_send_open c m h (wf.unclosed c reg),
  record {
    well_formed = quiet-IsWellFormed h (sent c m h) (sent-IsQuiet c m h) wf;
    clients = refl;
  },
)

pub send_all-Keeps :
    (cs : List ClientId) (m : ServerMessage) (h : Hub)
    → IsWellFormed h
    → ((d : ClientId) → contains d cs ≡ true → contains d h.clients ≡ true)
    → Runs (send_all cs m h) (Keeps h)
send_all-Keeps cs m h wf reg =
    let (h', e, q) = send_all_runs cs m h (λ d i. wf.unclosed d (reg d i)) in
    (h', e, record { well_formed = quiet-IsWellFormed h h' q wf; clients = q.clients })

pub deliver_local-Keeps :
    (room : Uuid) (m : ServerMessage) (h : Hub)
    → IsWellFormed h
    → Runs (deliver_local room m h) (Keeps h)
unfolding deliver_local
deliver_local-Keeps room m h wf = send_all-Keeps (members room h) m h wf (λ d i. wf.live d room i)

Keeps-trans : (h h' h'' : Hub) → Keeps h h' → Keeps h' h'' → Keeps h h''
Keeps-trans h h' h'' p q = record { well_formed = q.well_formed; clients = q.clients ∙ p.clients }

Runs-from : (o : Option Hub) (h h' : Hub) → Keeps h h' → Runs o (Keeps h') → Runs o (Keeps h)
Runs-from o h h' k (h'', e, k') = (h'', e, Keeps-trans h h' h'' k k')

still :
    (c : ClientId) (h h' : Hub)
    → h'.clients ≡ h.clients
    → contains c h.clients ≡ true
    → contains c h'.clients ≡ true
still c h h' e reg = rw e reg

-- Going into a room, once admitted.
enter-Keeps :
    (c : ClientId) (room : Uuid) (h : Hub)
    → IsWellFormed h
    → contains c h.clients ≡ true
    → Runs (after_entry c room enter h) (Keeps h)
enter-Keeps c room h wf reg =
    let h' = put_in c room h in
    let k : Keeps h h' = record {
      well_formed = put_in-IsWellFormed c room h reg wf;
      clients = clients-put_in c room h;
    } in
    Runs-from _ h h' k
      (send-Keeps c (room_joined room h') h' k.well_formed (still c h h' k.clients reg))

after_entry-Keeps :
    (c : ClientId) (room : Uuid) (entry : Entry) (h : Hub)
    → IsWellFormed h
    → contains c h.clients ≡ true
    → Runs (after_entry c room entry h) (Keeps h)
unfolding send_error
after_entry-Keeps c room (refuse text) h wf reg =
    send-Keeps c (error_message "forbidden" text) h wf reg
after_entry-Keeps c room enter h wf reg = enter-Keeps c room h wf reg

after_lookup-Keeps :
    (c : ClientId) (room : Uuid) (r : Result Room) (h : Hub)
    → IsWellFormed h
    → contains c h.clients ≡ true
    → Runs (after_lookup c room r h) (Keeps h)
unfolding send_error
after_lookup-Keeps c room (err e) h wf reg =
    send-Keeps c (error_message "room_not_found" (literal "room not found")) h wf reg
after_lookup-Keeps c room (ok r) h wf reg =
    let (entry, w) = admission r.type room r (h.heap c).user_id h.world in
    let h' : Hub = record h { world = w } in
    Runs-from _ h h' (record { well_formed = world-IsWellFormed w h wf; clients = refl })
      (after_entry-Keeps c room entry h' (world-IsWellFormed w h wf) reg)

pub join_room-Keeps :
    (c : ClientId) (room : Uuid) (h : Hub)
    → IsWellFormed h
    → contains c h.clients ≡ true
    → Runs (join_room c room h) (Keeps h)
unfolding join_room
join_room-Keeps c room h wf reg =
    let (r, w) = RoomService.get_room room h.world in
    let h' : Hub = record h { world = w } in
    elim (Bool-cases (contains room (h.heap c).rooms)) [
      | inl joined ↦ rw joined (h, refl, record { well_formed = wf; clients = refl })
      | inr fresh ↦ rw fresh (
          Runs-from _ h h' (record { well_formed = world-IsWellFormed w h wf; clients = refl })
            (after_lookup-Keeps c room r h' (world-IsWellFormed w h wf) reg))
    ]

after_send-Keeps :
    (c : ClientId) (room : Uuid) (r : Result Message) (h : Hub)
    → IsWellFormed h
    → contains c h.clients ≡ true
    → Runs (after_send c room r h) (Keeps h)
unfolding send_error
after_send-Keeps c room (err e) h wf reg =
    send-Keeps c (error_message "send_failed" (rendered e)) h wf reg
after_send-Keeps c room (ok m) h wf reg =
    let publication = publish room (chat_frame (h.heap c) m) in
    (
      tell publication h,
      refl,
      record { well_formed = tell-IsWellFormed publication h wf; clients = refl },
    )

pub handle_chat-Keeps :
    (new_id : Uuid) (now : Time) (c : ClientId) (msg : ClientMessage) (h : Hub)
    → IsWellFormed h
    → contains c h.clients ≡ true
    → Runs (handle_chat new_id now c msg h) (Keeps h)
unfolding handle_chat
handle_chat-Keeps new_id now c msg h wf reg =
    let (r, w) =
      MessageService.send_message new_id now (h.heap c).user_id (h.heap c).username msg.room_id
        msg.content h.world in
    let h' : Hub = record h { world = w } in
    Runs-from _ h h' (record { well_formed = world-IsWellFormed w h wf; clients = refl })
      (after_send-Keeps c msg.room_id r h' (world-IsWellFormed w h wf) reg)

pub handle_typing-Keeps :
    (c : ClientId) (msg : ClientMessage) (h : Hub)
    → IsWellFormed h
    → Runs (handle_typing c msg h) (Keeps h)
unfolding handle_typing
handle_typing-Keeps c msg h wf = elim (Bool-cases (is_some msg.is_typing)) [
  | inl some_bool ↦ rw some_bool (deliver_local-Keeps msg.room_id _ h wf)
  | inr nothing ↦ rw nothing (h, refl, record { well_formed = wf; clients = refl })
]

remove_less :
    (d c : ClientId) (s : List ClientId) → contains d (remove c s) ≡ true → contains d s ≡ true
remove_less d c s i = ground (arith, contains-remove d c s)

pub handle_voice_join-Keeps :
    (c : ClientId) (room : Uuid) (h : Hub)
    → IsWellFormed h
    → contains c h.clients ≡ true
    → Runs (handle_voice_join c room h) (Keeps h)
unfolding handle_voice_join
handle_voice_join-Keeps c room h wf reg =
    let h' = put_in_voice c room h in
    let wf' = put_in_voice-IsWellFormed c room h reg wf in
    let same = clients-put_in_voice c room h in
    Runs-bind _ _ (Keeps h') (Keeps h) (send-Keeps c _ h' wf' (still c h h' same reg)) (λ h₁ k.
      Runs-from _ h h₁ (Keeps-trans h h' h₁ (record { well_formed = wf'; clients = same }) k) (
        send_all-Keeps (remove c (voice_members room h')) _ h₁ k.well_formed (λ d i.
          still d h' h₁ k.clients
            (wf'.live_voice d room (remove_less d c (voice_members room h') i)))))

pub handle_voice_leave-Keeps :
    (c : ClientId) (room : Uuid) (h : Hub)
    → IsWellFormed h
    → Runs (handle_voice_leave c room h) (Keeps h)
unfolding handle_voice_leave
handle_voice_leave-Keeps c room h wf =
    let h' = take_out_of_voice c room h in
    let k : Keeps h h' = record {
      well_formed = take_out-IsWellFormed c room h wf;
      clients = clients-take_out c room h;
    } in
    Runs-from _ h h' k (
      send_all-Keeps (voice_members room h') _ h' k.well_formed
        (λ d i. k.well_formed.live_voice d room i))

relay_to-Keeps :
    (c : ClientId) (msg : ClientMessage) (o : Option ClientId) (h : Hub)
    → IsWellFormed h
    → ((d : ClientId) → o ≡ some d → contains d h.clients ≡ true)
    → Runs (relay_to c msg o h) (Keeps h)
relay_to-Keeps c msg none h wf reg = (h, refl, record { well_formed = wf; clients = refl })
relay_to-Keeps c msg (some d) h wf reg = send-Keeps d _ h wf (reg d refl)

pub relay_voice_signal-Keeps :
    (c : ClientId) (msg : ClientMessage) (h : Hub)
    → IsWellFormed h
    → Runs (relay_voice_signal c msg h) (Keeps h)
unfolding relay_voice_signal
relay_voice_signal-Keeps c msg h wf = elim (Bool-cases (msg.target_user_id == uuid_nil)) [
  | inl nobody ↦ rw nobody (h, refl, record { well_formed = wf; clients = refl })
  | inr target ↦ rw target (
      relay_to-Keeps c msg
        (find_row (λ (p : ClientId). user_of h p == msg.target_user_id)
          (voice_members msg.room_id h))
        h wf (λ d e. wf.live_voice d msg.room_id (find-contains _ _ d e).0))
]
