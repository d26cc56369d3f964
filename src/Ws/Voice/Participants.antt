-- ===== src/Ws/Voice/Participants.antt =====
-- Who is in which voice room after `put_in_voice` and `take_out_of_voice`.
use chat_back.Prelude.{
  ◌≡◌, refl, arith, ◌==◌, if◌then◌else◌, lookup, add, remove, set_of, lookup-drop_from,
  lookup-insert,
}
use chat_back.Domain.{Uuid}
use chat_back.Ws.State.{ClientId, Hub, voice_members}
use chat_back.Ws.Voice.{put_in_voice, take_out_of_voice}

pub voice_members-put_in_voice :
    (r room : Uuid) (c : ClientId) (h : Hub)
    → voice_members r (put_in_voice c room h)
      ≡ (if r == room then add c (voice_members room h) else voice_members r h)
unfolding voice_members put_in_voice
voice_members-put_in_voice r room c h =
    ground (arith, lookup-insert r room (add c (set_of (lookup room h.voice_rooms))) h.voice_rooms)

pub voice_members-take_out :
    (r room : Uuid) (c : ClientId) (h : Hub)
    → voice_members r (take_out_of_voice c room h)
      ≡ (if r == room then remove c (voice_members room h) else voice_members r h)
unfolding voice_members take_out_of_voice
voice_members-take_out r room c h = lookup-drop_from r room c h.voice_rooms

pub clients-put_in_voice :
    (c : ClientId) (room : Uuid) (h : Hub) → (put_in_voice c room h).clients ≡ h.clients
unfolding put_in_voice
clients-put_in_voice c room h = refl

pub clients-take_out :
    (c : ClientId) (room : Uuid) (h : Hub) → (take_out_of_voice c room h).clients ≡ h.clients
unfolding take_out_of_voice
clients-take_out c room h = refl
