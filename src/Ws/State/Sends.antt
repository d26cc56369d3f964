-- ===== src/Ws/State/Sends.antt =====
-- What a send leaves alone, and that it does not panic on an open channel.
use chat_back.Prelude.{
  ◌≤◌, ◌≡◌, refl, arith, Bool, true, false, List, [], ◌∷◌, ◌++◌, Option, none, some, ◌==◌, ltb,
  length, if◌then◌else◌, update, contains, length-append, ◌∙◌, Bool-cases, ==_iff, ap, sym, subst,
  update_same, contains_head, contains_tail, inl, inr,
}
use chat_back.Ws.Protocol.{ServerMessage}
use chat_back.Ws.State.{ClientId, Client, Hub, ◌>>=◌, send_buffer_size, try_send, send_all}

-- A client without its queue.
abbrev pub unsent : Client → Client
unsent k = record k { send = [] }

-- The queue after an attempt to send.
unfoldable pub push : ServerMessage → List ServerMessage → List ServerMessage
push m q = if ltb (length q) send_buffer_size then q ++ m ∷ [] else q

pub length-push :
    (m : ServerMessage) (q : List ServerMessage)
    → length q ≤ send_buffer_size
    → length (push m q) ≤ send_buffer_size
unfolding push
length-push m q h = ground (arith, length-append q (m ∷ []))

-- The states that differ in the queues at most, and there within the buffers' size.
pub record IsQuiet (h h' : Hub) : Type 0 where
  pub clients : h'.clients ≡ h.clients
  pub rooms : h'.rooms ≡ h.rooms
  pub voice_rooms : h'.voice_rooms ≡ h.voice_rooms
  pub world : h'.world ≡ h.world
  pub log : h'.log ≡ h.log
  pub queues :
      (d : ClientId)
      → length (h.heap d).send ≤ send_buffer_size
      → length (h'.heap d).send ≤ send_buffer_size
  pub objects : (d : ClientId) → unsent (h'.heap d) ≡ unsent (h.heap d)

pub IsQuiet-refl : (h : Hub) → IsQuiet h h
IsQuiet-refl h = record {
  clients = refl;
  rooms = refl;
  voice_rooms = refl;
  world = refl;
  log = refl;
  queues = λ d b. b;
  objects = λ d. refl;
}

pub IsQuiet-trans : (h₁ h₂ h₃ : Hub) → IsQuiet h₁ h₂ → IsQuiet h₂ h₃ → IsQuiet h₁ h₃
IsQuiet-trans h₁ h₂ h₃ p q = record {
  clients = q.clients ∙ p.clients;
  rooms = q.rooms ∙ p.rooms;
  voice_rooms = q.voice_rooms ∙ p.voice_rooms;
  world = q.world ∙ p.world;
  log = q.log ∙ p.log;
  queues = λ d b. q.queues d (p.queues d b);
  objects = λ d. q.objects d ∙ p.objects d;
}

-- A computation that does not panic, and whose result has the property.
abbrev pub Runs : Option Hub → (Hub → Type 0) → Type 0
Runs o P = (h : Hub) × (o ≡ some h) × P h

pub Runs-bind :
    (m : Option Hub) (f : Hub → Option Hub) (P Q : Hub → Type 0)
    → Runs m P
    → ((h : Hub) → P h → Runs (f h) Q)
    → Runs (m >>= f) Q
Runs-bind m f P Q (h, e, p) k = let (h', e', q) = k h p in (h', rw (e, ◌>>=◌) e', q)

-- The result of such a computation has the property.
pub Runs-result : (o : Option Hub) (P : Hub → Type 0) (h : Hub) → Runs o P → o ≡ some h → P h
Runs-result o P h (h', e, p) e' = subst P (cc) p

-- The state after a send on an open channel.
abbrev pub sent : ClientId → ServerMessage → Hub → Hub
sent c m h = record h {
  heap = update h.heap c (record (h.heap c) { send = push m (h.heap c).send });
}

unsent-sent :
    (c d : ClientId) (m : ServerMessage) (h : Hub)
    → unsent ((sent c m h).heap d) ≡ unsent (h.heap d)
unsent-sent c d m h = ground arith

length-sent :
    (c d : ClientId) (m : ServerMessage) (h : Hub)
    → length (h.heap d).send ≤ send_buffer_size
    → length ((sent c m h).heap d).send ≤ send_buffer_size
length-sent c d m h b = elim (Bool-cases (d == c)) [
  | inl same ↦ rw same (length-push m (h.heap c).send (rw ((==_iff d c).0 same) at b))
  | inr other ↦ rw other b
]

pub sent-IsQuiet : (c : ClientId) (m : ServerMessage) (h : Hub) → IsQuiet h (sent c m h)
sent-IsQuiet c m h = record {
  clients = refl;
  rooms = refl;
  voice_rooms = refl;
  world = refl;
  log = refl;
  queues = λ d b. length-sent c d m h b;
  objects = λ d. unsent-sent c d m h;
}

pub try_send_open :
    (c : ClientId) (m : ServerMessage) (h : Hub)
    → (h.heap c).closed ≡ false
    → try_send c m h ≡ some (sent c m h)
unfolding try_send push
try_send_open c m h e =
    ap (λ b. if b then none else attempt (ltb (length (h.heap c).send) send_buffer_size)) e
    ∙ settle (ltb (length (h.heap c).send) send_buffer_size)
  where
    attempt : Bool → Option Hub
    attempt b =
        if b
        then some (record h {
          heap = update h.heap c (record (h.heap c) { send = (h.heap c).send ++ m ∷ [] });
        })
        else some h

    settle :
        (b : Bool)
        → attempt b
          ≡ some (record h {
            heap = update h.heap c (record (h.heap c) {
              send = if b then (h.heap c).send ++ m ∷ [] else (h.heap c).send;
            });
          })
    settle true = refl
    settle false =
        ap (λ (f : ClientId → Client). some (record h { heap = f })) (sym (update_same h.heap c))

pub try_send_closed :
    (c : ClientId) (m : ServerMessage) (h : Hub) → (h.heap c).closed ≡ true → try_send c m h ≡ none
unfolding try_send
try_send_closed c m h e = rw e

-- A send that does not panic, on whatever channel, is quiet.
pub try_send-IsQuiet :
    (c : ClientId) (m : ServerMessage) (h h' : Hub) → try_send c m h ≡ some h' → IsQuiet h h'
try_send-IsQuiet c m h h' e = elim (Bool-cases (h.heap c).closed) [
  | inl shut ↦ absurd (ground (arith, try_send_closed c m h shut))
  | inr unshut ↦
      Runs-result _ (IsQuiet h) h' (sent c m h, try_send_open c m h unshut, sent-IsQuiet c m h) e
]

-- A set of clients, all of them with open channels.
abbrev pub AllOpen : List ClientId → Hub → Type 0
AllOpen cs h = (d : ClientId) → contains d cs ≡ true → (h.heap d).closed ≡ false

closed-sent :
    (c d : ClientId) (m : ServerMessage) (h : Hub)
    → ((sent c m h).heap d).closed ≡ (h.heap d).closed
closed-sent c d m h = ap (λ (k : Client). k.closed) (unsent-sent c d m h)

pub send_all_runs :
    (cs : List ClientId) (m : ServerMessage) (h : Hub)
    → AllOpen cs h
    → Runs (send_all cs m h) (IsQuiet h)
unfolding send_all
send_all_runs [] m h open_all = (h, refl, IsQuiet-refl h)
send_all_runs (c ∷ cs) m h open_all =
    let e = try_send_open c m h (open_all c (contains_head c cs)) in
    let (h', e', q) =
      send_all_runs cs m (sent c m h)
        (λ d i. closed-sent c d m h ∙ open_all d (contains_tail d c cs i)) in
    (h', rw e e', IsQuiet-trans h (sent c m h) h' (sent-IsQuiet c m h) q)
