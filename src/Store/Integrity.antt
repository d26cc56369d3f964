-- ===== src/Store/Integrity.antt =====
-- The references between the tables, which the migrations declare: REFERENCES … ON DELETE CASCADE.
use chat_back.Prelude.{
  Bool, true, false, List, [], ◌∷◌, ◌&&◌, ◌≡◌, All, arith, exists_row, delete_where, Bool-cases,
  inl, inr,
}
use chat_back.Domain.{Uuid, Room}
use chat_back.Store.{MemberRow, MessageRow, InviteRow, ReadRow, FriendRow, Db, has_user, has_room}

abbrev pub HasBoth : Uuid → Uuid → Db → Type 0
HasBoth room user db = (has_room room db ≡ true) × (has_user user db ≡ true)

-- Every row that a row refers to is there.
abbrev pub IsConsistent : Db → Type 0
IsConsistent db =
    All (λ (r : Room). has_user r.owner_id db ≡ true) db.rooms
    × All (λ (m : MemberRow). HasBoth m.room_id m.user_id db) db.room_members
    × All (λ (m : MessageRow). HasBoth m.room_id m.user_id db) db.messages
    × All (λ (i : InviteRow). HasBoth i.room_id i.inviter_id db × (has_user i.invitee_id db ≡ true))
        db.room_invites
    × All (λ (r : ReadRow). HasBoth r.room_id r.user_id db) db.room_reads
    × All
        (λ (f : FriendRow).
          (has_user f.requester_id db ≡ true) × (has_user f.addressee_id db ≡ true))
        db.friendships

module _ {A : Type 0} where
  pub All-delete :
      (P Q : A → Type 0) (p : A → Bool) (xs : List A)
      → ((x : A) → P x → p x ≡ false → Q x)
      → All P xs
      → All Q (delete_where p xs)
  All-delete P Q p [] h ps = tt
  All-delete P Q p (x ∷ xs) h (px, ps) = elim (Bool-cases (p x)) [
    | inl gone ↦ rw gone (All-delete P Q p xs h ps)
    | inr kept ↦ rw kept (h x px kept, All-delete P Q p xs h ps)
  ]

  -- A row is still there after a deletion that takes no such row.
  pub exists-delete_apart :
      (q p : A → Bool) (xs : List A)
      → exists_row q xs ≡ true
      → exists_row (λ x. q x && p x) xs ≡ false
      → exists_row q (delete_where p xs) ≡ true
  exists-delete_apart q p [] h n = ground arith
  exists-delete_apart q p (x ∷ xs) h n = ground (arith, exists-delete_apart q p xs)

  pub exists_none : (p : A → Bool) (xs : List A) → ((x : A) → p x ≡ false) → exists_row p xs ≡ false
  exists_none p [] h = ground arith
  exists_none p (x ∷ xs) h = ground (arith, h x, exists_none p xs h)
