-- ===== src/App/FriendService/Direct.antt =====
-- `GetOrCreateDM`.
use chat_back.Prelude.{
  true, ◌∷◌, ◌≡◌, ◌≢◌, inl, inr, refl, arith, find_row, find_row-holds, Option-cases, ap, ◌∙◌,
  subst,
}
use chat_back.Domain.{Uuid, Time, Error, Room}
use chat_back.Store.{is_ok, return, Result, Query, call, ◌>>=◌, ◌>>◌, World, Db, ok, err}
use chat_back.Postgres.RoomRepo.{insert_room}
use chat_back.Postgres.FriendRepo.{
  is_dm_of, insert_seats, create_dm, find_dm, in_transaction, new_dm, seat_of, dm_statements,
  reaches, or_create,
}
use chat_back.App.FriendService.{get_or_create_dm}

-- A failed `GetOrCreateDM`, wherever the database is lost, leaves the tables as they were.
pub get_or_create_dm_fails :
    (new_id : Uuid) (now : Time) (user₁ user₂ : Uuid) (w : World) {e : Error}
    → (get_or_create_dm new_id now user₁ user₂ w).0 ≡ err e
    → (get_or_create_dm new_id now user₁ user₂ w).1.db ≡ w.db
unfolding get_or_create_dm
get_or_create_dm_fails new_id now user₁ user₂ w h = ground arith

module _ {A : Type 0} where
  call_ok :
      (f : Db → Result A × Db) (w : World) (a : A)
      → (call f w).0 ≡ ok a
      → ((f w.db).0 ≡ ok a) × ((call f w).1.db ≡ (f w.db).1)
  call_ok f w a h = (ground arith, ground arith)

module _ {A B : Type 0} where
  -- A sequence that succeeds does so step by step.
  then_ok :
      (p : Query A) (q : Query B) (w : World) (b : B)
      → ((p >> q) w).0 ≡ ok b
      → (a : A) × ((p w).0 ≡ ok a) × ((q (p w).1).0 ≡ ok b) × ((p >> q) w ≡ q (p w).1)
  then_ok p q w b h = split (p w).0 refl
    where
      split :
          (r : Result A)
          → (p w).0 ≡ r
          → (a : A) × ((p w).0 ≡ ok a) × ((q (p w).1).0 ≡ ok b) × ((p >> q) w ≡ q (p w).1)
      split (ok a) e = (a, e, rw (e, ◌>>◌, ◌>>=◌) at h, rw (e, ◌>>◌, ◌>>=◌) refl)
      split (err x) e = absurd (ground (arith, rw (e, ◌>>◌, ◌>>=◌) at h))

-- The tables of a DM that has been made.
IsMade : Uuid → Time → Uuid → Uuid → Db → Db → Type 0
IsMade new_id now user₁ user₂ db db' =
    (user₁ ≢ user₂)
    × (db'.rooms ≡ new_dm new_id user₁ now ∷ db.rooms)
    × (db'.room_members ≡ seat_of new_id user₁ ∷ seat_of new_id user₂ ∷ db.room_members)

insert_room_ok :
    (r : Room) (db : Db)
    → (insert_room r db).0 ≡ ok tt
    → (insert_room r db).1 ≡ record db { rooms = r ∷ db.rooms }
unfolding insert_room
insert_room_ok r db h = ground arith

insert_seats_ok :
    (room user₁ user₂ : Uuid) (db : Db)
    → (insert_seats room user₁ user₂ db).0 ≡ ok tt
    → (user₁ ≢ user₂)
      × ((insert_seats room user₁ user₂ db).1
          ≡ record db { room_members = seat_of room user₁ ∷ seat_of room user₂ ∷ db.room_members })
unfolding insert_seats
insert_seats_ok room user₁ user₂ db h = (ground arith, ground arith)

dm_statements-IsMade :
    (new_id : Uuid) (now : Time) (user₁ user₂ : Uuid) (w : World) (r : Room)
    → (dm_statements new_id now user₁ user₂ w).0 ≡ ok r
    → IsMade new_id now user₁ user₂ w.db (dm_statements new_id now user₁ user₂ w).1.db
      × (r ≡ new_dm new_id user₁ 0)
unfolding IsMade
dm_statements-IsMade new_id now user₁ user₂ w r h =
    let f = insert_room (new_dm new_id user₁ now) in
    let g = insert_seats new_id user₁ user₂ in
    let s₁ = reaches >> call f in
    let s₂ = s₁ >> call g in
    let s₃ = s₂ >> reaches in
    let (a₃, h₃, h₄, e₄) = then_ok s₃ (return (new_dm new_id user₁ 0)) w r h in
    let (a₂, h₂, k₃, e₃) = then_ok s₂ reaches w a₃ h₃ in
    let (a₁, h₁, k₂, e₂) = then_ok s₁ (call g) w a₂ h₂ in
    let (a₀, h₀, k₁, e₁) = then_ok reaches (call f) w a₁ h₁ in
    let d₀ = (call_ok (λ db. (ok tt, db)) w a₀ h₀).1 in
    let (f_ok, d₁) = call_ok f (reaches w).1 a₁ k₁ in
    let (g_ok, d₂) = call_ok g (s₁ w).1 a₂ k₂ in
    let d₃ = (call_ok (λ db. (ok tt, db)) (s₂ w).1 a₃ k₃).1 in
    let room = new_dm new_id user₁ now in
    let db₁ : Db = record w.db { rooms = room ∷ w.db.rooms } in
    let D₁ : (s₁ w).1.db ≡ db₁ =
      ap (λ (x : Result (Unit {0}) × World). x.1.db) e₁
      ∙ d₁
      ∙ ap (λ db. (f db).1) d₀
      ∙ insert_room_ok room w.db (subst (λ (db : Db). (f db).0 ≡ ok tt) d₀ f_ok) in
    let (differ, seated) =
      insert_seats_ok new_id user₁ user₂ db₁ (subst (λ (db : Db). (g db).0 ≡ ok tt) D₁ g_ok) in
    let D₂ =
      ap (λ (x : Result (Unit {0}) × World). x.1.db) e₂ ∙ d₂ ∙ ap (λ db. (g db).1) D₁ ∙ seated in
    let D₃ =
      ap (λ (x : Result Room × World). x.1.db) e₄
      ∙ ap (λ (x : Result (Unit {0}) × World). x.1.db) e₃
      ∙ d₃
      ∙ D₂ in
    ((differ, ap (λ (db : Db). db.rooms) D₃, ap (λ (db : Db). db.room_members) D₃), ground arith)

create_dm-IsMade :
    (new_id : Uuid) (now : Time) (user₁ user₂ : Uuid) (w : World) (r : Room)
    → (create_dm new_id now user₁ user₂ w).0 ≡ ok r
    → IsMade new_id now user₁ user₂ w.db (create_dm new_id now user₁ user₂ w).1.db
      × (r ≡ new_dm new_id user₁ 0)
unfolding create_dm in_transaction
create_dm-IsMade new_id now user₁ user₂ w r h =
    rw (h, is_ok) (dm_statements-IsMade new_id now user₁ user₂ w r h)

find_dm_finds :
    (user₁ user₂ : Uuid) (w : World) (r : Room)
    → (find_dm user₁ user₂ w).0 ≡ ok r
    → is_dm_of user₁ user₂ (find_dm user₁ user₂ w).1.db r ≡ true
unfolding find_dm
find_dm_finds user₁ user₂ w r h =
    elim (Option-cases (find_row (is_dm_of user₁ user₂ w.db) w.db.rooms)) [
      | inl e ↦ absurd (ground arith)
      | inr (r', e) ↦
          let holds = find_row-holds (is_dm_of user₁ user₂ w.db) w.db.rooms r' e in ground arith
    ]

IsMade-is_dm_of :
    (new_id : Uuid) (now : Time) (user₁ user₂ : Uuid) (db db' : Db) (r : Room)
    → IsMade new_id now user₁ user₂ db db'
    → r ≡ new_dm new_id user₁ 0
    → is_dm_of user₁ user₂ db' r ≡ true
unfolding IsMade
IsMade-is_dm_of new_id now user₁ user₂ db db' r (differ, rooms, seats) e = ground arith

or_create_effect :
    (new_id : Uuid) (now : Time) (user₁ user₂ : Uuid) (x : Result Room) (w : World) (r : Room)
    → (x ≡ ok r → is_dm_of user₁ user₂ w.db r ≡ true)
    → (or_create new_id now user₁ user₂ (x, w)).0 ≡ ok r
    → is_dm_of user₁ user₂ (or_create new_id now user₁ user₂ (x, w)).1.db r ≡ true
or_create_effect new_id now user₁ user₂ (ok r') w r f h = f h
or_create_effect new_id now user₁ user₂ (err e) w r f h =
    let (m, e') = create_dm-IsMade new_id now user₁ user₂ w r h in
    IsMade-is_dm_of new_id now user₁ user₂ w.db _ r m e'

-- Whichever calls do not reach the database, a room that `GetOrCreateDM` returns is a DM with both users in it.
pub get_or_create_dm_effect :
    (new_id : Uuid) (now : Time) (user₁ user₂ : Uuid) (w : World) (r : Room)
    → (get_or_create_dm new_id now user₁ user₂ w).0 ≡ ok r
    → is_dm_of user₁ user₂ (get_or_create_dm new_id now user₁ user₂ w).1.db r ≡ true
unfolding get_or_create_dm
get_or_create_dm_effect new_id now user₁ user₂ w r h =
    let (x, w') = find_dm user₁ user₂ w in
    or_create_effect new_id now user₁ user₂ x w' r (find_dm_finds user₁ user₂ w r) h
