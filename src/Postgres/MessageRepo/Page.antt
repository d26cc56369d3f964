-- ===== src/Postgres/MessageRepo/Page.antt =====
-- What `ListBefore` returns: the page of a room's messages before a cursor.
use chat_back.Prelude.{ℕ, ◌≤◌, ◌≡◌, ◌⊎◌, true, List, length, length-take, All, select}
use chat_back.Domain.{Uuid}
use chat_back.Store.{MessageRow}
use chat_back.Store.Order.{
  In, Descends, order_by, order_by-In, order_by-Descends, take-Descends, take_takes, take_leaves,
  select_keeps, select_takes,
}
use chat_back.Postgres.MessageRepo.{page, before_cursor}

abbrev pub id_of : MessageRow → Uuid
id_of m = m.id

-- A page holds messages of the room that come before the cursor, at most `limit` of them, from the
-- largest id to the smallest.
pub page_sound :
    (room cursor : Uuid) (limit : ℕ) (rows : List MessageRow)
    → (length (page room cursor limit rows) ≤ limit)
      × Descends id_of (page room cursor limit rows)
      × ((m : MessageRow)
          → In m (page room cursor limit rows)
          → In m rows × (before_cursor room cursor m ≡ true))
unfolding page
page_sound room cursor limit rows =
    let found = select (before_cursor room cursor) rows in
    (
      length-take limit (order_by id_of found),
      take-Descends id_of limit (order_by id_of found) (order_by-Descends id_of found),
      λ m i.
          select_takes (before_cursor room cursor) rows m
            ((order_by-In id_of m found).0 (take_takes limit (order_by id_of found) m i)),
    )

-- A message of the room before the cursor is on the page, or the page is full and all that is on
-- it has an id that is no smaller.
pub page_complete :
    (room cursor : Uuid) (limit : ℕ) (rows : List MessageRow) (m : MessageRow)
    → In m rows
    → before_cursor room cursor m ≡ true
    → In m (page room cursor limit rows)
      ⊎ ((length (page room cursor limit rows) ≡ limit)
          × All (λ (z : MessageRow). m.id ≤ z.id) (page room cursor limit rows))
unfolding page
page_complete room cursor limit rows m i b =
    let found = select (before_cursor room cursor) rows in
    take_leaves id_of limit (order_by id_of found) m (order_by-Descends id_of found)
      ((order_by-In id_of m found).1 (select_keeps (before_cursor room cursor) rows m i b))
