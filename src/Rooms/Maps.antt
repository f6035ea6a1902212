-- ===== src/Rooms/Maps.antt =====
-- Membership of the rooms as one table, and what an update of one room does to it.
use quickonnect.Prelude.{
  ℕ, Option, none, some, Text, nat_eq, text_eq, ◌==◌, if◌then◌else◌, ◌≡◌, arith,
}
use quickonnect.Prelude.Dict.{Dict, get, put, erase, get-put, get-erase}
use quickonnect.World.{World, RoomData, Session}
use quickonnect.Rooms.{get_room_clients, keep_or_destroy}

-- The handler of user `v` in the room `c`.
unfoldable pub member : Text → ℕ → Dict Text RoomData → Option Session
member c v rooms = elim (get c rooms) [ none ↦ none | some rd ↦ get v rd.clients ]

pub member_lem : (c : Text) (v : ℕ) (w : World) → get v (get_room_clients c w) ≡ member c v w.rooms
unfolding member get_room_clients get
member_lem c v w = ground arith

pub member-put :
    (c code : Text) (v : ℕ) (rd : RoomData) (rooms : Dict Text RoomData)
    → member c v (put code rd rooms) ≡ (if c == code then get v rd.clients else member c v rooms)
unfolding member
member-put c code v rd rooms = ground (arith, get-put code c rd rooms)

pub member-erase :
    (c code : Text) (v : ℕ) (rooms : Dict Text RoomData)
    → member c v (erase code rooms) ≡ (if c == code then none else member c v rooms)
unfolding member
member-erase c code v rooms = ground (arith, get-erase code c rooms)

-- Whether the room is kept or given up, its members are those of its data.
pub member-keep_or_destroy :
    (c code : Text) (v : ℕ) (rd : RoomData) (w : World)
    → member c v (keep_or_destroy code rd w).rooms
      ≡ (if c == code then get v rd.clients else member c v w.rooms)
unfolding keep_or_destroy get
member-keep_or_destroy c code v rd w =
    ground (arith, member-put c code v rd w.rooms, member-erase c code v w.rooms)

pub member-some :
    (c : Text) (v : ℕ) (rd : RoomData) (rooms : Dict Text RoomData)
    → get c rooms ≡ some rd
    → member c v rooms ≡ get v rd.clients
unfolding member
member-some c v rd rooms h = rw (h, member)

pub member-none :
    (c : Text) (v : ℕ) (rooms : Dict Text RoomData) → get c rooms ≡ none → member c v rooms ≡ none
unfolding member
member-none c v rooms h = rw (h, member)
