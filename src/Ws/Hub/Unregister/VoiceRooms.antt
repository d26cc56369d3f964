-- ===== src/Ws/Hub/Unregister/VoiceRooms.antt =====
-- The loop of `unregister` over the voice rooms, in `Run` of hub.go.
use chat_back.Prelude.{
  ◌≡◌, refl, arith, ap, ◌∙◌, true, false, List, [], ◌∷◌, ◌==◌, contains, contains-remove,
  contains-nil, contains-cons, ==_iff, Bool-cases, inl, inr,
}
use chat_back.Domain.{Uuid}
use chat_back.Ws.State.{ClientId, Client, Hub, voice_members}
use chat_back.Ws.State.Sends.{Runs, Runs-bind, send_all_runs}
use chat_back.Ws.Voice.{take_out_of_voice, handle_voice_leave}
use chat_back.Ws.Voice.Participants.{voice_members-take_out, clients-take_out}
use chat_back.Ws.Hub.{leave_voice_rooms}
use chat_back.Ws.Hub.WellFormed.{voice_members-quiet, quiet-rooms, quiet-closed}
use chat_back.Ws.Hub.Leaving.{IsLeaving, quiet-IsLeaving, take_out-IsLeaving}

-- What the voice loop does between `h` and `h'`: it keeps the registered clients and the rooms and
-- channel of `c`, and leaves `c` in no voice room of its list.
pub record HasLeft (c : ClientId) (rooms : List Uuid) (h h' : Hub) : Type 0 where
  pub leaving : IsLeaving c h'
  pub clients : h'.clients ≡ h.clients
  pub rooms_of : (h'.heap c).rooms ≡ (h.heap c).rooms
  pub closed_of : (h'.heap c).closed ≡ (h.heap c).closed
  pub out :
      (r : Uuid)
      → contains c (voice_members r h') ≡ true
      → (contains c (voice_members r h) ≡ true) × (contains r rooms ≡ false)

pub heap-take_out :
    (c d : ClientId) (room : Uuid) (h : Hub) → (take_out_of_voice c room h).heap d ≡ h.heap d
unfolding take_out_of_voice
heap-take_out c d room h = refl

pub voice_leave_runs :
    (c : ClientId) (room : Uuid) (h : Hub)
    → IsLeaving c h
    → Runs (handle_voice_leave c room h) (HasLeft c (room ∷ []) h)
unfolding handle_voice_leave
voice_leave_runs c room h wf =
    let h₁ = take_out_of_voice c room h in
    let wf₁ = take_out-IsLeaving c room h wf in
    let (h', e, q) =
      send_all_runs (voice_members room h₁) _ h₁
        (λ d i. wf₁.unclosed d (wf₁.live_voice d room (other d i) i)) in
    (
      h',
      e,
      record {
        leaving = quiet-IsLeaving c h₁ h' q wf₁;
        clients = q.clients ∙ clients-take_out c room h;
        rooms_of = quiet-rooms h₁ h' c q ∙ ap (λ (k : Client). k.rooms) (heap-take_out c c room h);
        closed_of =
            quiet-closed h₁ h' c q ∙ ap (λ (k : Client). k.closed) (heap-take_out c c room h);
        out = λ r i. gone r (rw (voice_members-quiet h₁ h' r q) at i);
      },
    )
  where
    other :
        (d : ClientId)
        → contains d (voice_members room (take_out_of_voice c room h)) ≡ true
        → (d == c) ≡ false
    other d i =
        ground
          (arith, voice_members-take_out room room c h, contains-remove d c (voice_members room h))

    gone :
        (r : Uuid)
        → contains c (voice_members r (take_out_of_voice c room h)) ≡ true
        → (contains c (voice_members r h) ≡ true) × (contains r (room ∷ []) ≡ false)
    gone r i = ground (
      arith,
      voice_members-take_out r room c h,
      contains-remove c c (voice_members room h),
      contains-cons r room [],
      contains-nil r,
    )

pub leave_voice_rooms_runs :
    (c : ClientId) (rooms : List Uuid) (h : Hub)
    → IsLeaving c h
    → Runs (leave_voice_rooms c rooms h) (HasLeft c rooms h)
unfolding leave_voice_rooms
leave_voice_rooms_runs c [] h wf = (
  h,
  refl,
  record {
    leaving = wf;
    clients = refl;
    rooms_of = refl;
    closed_of = refl;
    out = λ r i. (i, contains-nil r);
  },
)
leave_voice_rooms_runs c (room ∷ rooms) h wf =
    Runs-bind _ _ (HasLeft c (room ∷ []) h) (HasLeft c (room ∷ rooms) h)
      (elim (Bool-cases (contains c (voice_members room h))) [
        | inl inside ↦ rw inside (voice_leave_runs c room h wf)
        | inr outside ↦ rw outside (
          h,
          refl,
          record {
            leaving = wf;
            clients = refl;
            rooms_of = refl;
            closed_of = refl;
            out = λ r i. (i, not_here r outside i);
          },
        )
      ])
      (λ h₁ p.
        let (h', e, q) = leave_voice_rooms_runs c rooms h₁ p.leaving in
        (
          h',
          e,
          record {
            leaving = q.leaving;
            clients = q.clients ∙ p.clients;
            rooms_of = q.rooms_of ∙ p.rooms_of;
            closed_of = q.closed_of ∙ p.closed_of;
            out = λ r i. ground (
              arith,
              q.out r i,
              p.out r (q.out r i).0,
              contains-cons r room rooms,
              contains-cons r room [],
              contains-nil r,
            );
          },
        ))
  where
    not_here :
        (r : Uuid)
        → contains c (voice_members room h) ≡ false
        → contains c (voice_members r h) ≡ true
        → contains r (room ∷ []) ≡ false
    not_here r outside i = elim (Bool-cases (r == room)) [
      | inl same ↦ absurd (
          ground
            (arith, ap (λ (x : Uuid). contains c (voice_members x h)) ((==_iff r room).0 same)))
      | inr differs ↦ ground (arith, contains-cons r room [], contains-nil r)
    ]
