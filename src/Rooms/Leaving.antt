-- ===== src/Rooms/Leaving.antt =====
-- Leaving one room, and all rooms.
use quickonnect.Prelude.{
  ℕ, Bool, false, ◌&&◌, none, some, List, [], ◌∷◌, Text, nat_eq, text_eq, ◌==◌, if◌then◌else◌, ◌≡◌,
  refl, ap, arith, text_beq_iff, nat_beq_iff, elem, is_some, inl, inr, Option-cases,
}
use quickonnect.Prelude.Dict.{Dict, get, has, get-erase, keys, values}
use quickonnect.World.{World, RoomData}
use quickonnect.Rooms.{
  get_room_clients, leave_room, drop_user, mark_participant_left, keep_or_destroy, remove_from,
  remove_client_from_all_rooms,
}
use quickonnect.Rooms.Maps.{member, member_lem, member-keep_or_destroy, member-some, member-none}

get-drop_user :
    (u v : ℕ) (rd : RoomData)
    → get v (drop_user u rd).clients ≡ (if v == u then none else get v rd.clients)
unfolding drop_user
get-drop_user u v rd = get-erase u v rd.clients

pub leave_room-none :
    (code : Text) (u : ℕ) (w : World) → get code w.rooms ≡ none → leave_room code u w ≡ ([], w)
unfolding leave_room
leave_room-none code u w h = rw (h, leave_room)

pub leave_room-some :
    (code : Text) (u : ℕ) (w : World) (rd : RoomData)
    → get code w.rooms ≡ some rd
    → leave_room code u w ≡ (
      values (drop_user u rd).clients,
      keep_or_destroy code (drop_user u rd) (mark_participant_left rd.room.id u w),
    )
unfolding leave_room
leave_room-some code u w rd h = rw (h, leave_room)

rooms-mark_participant_left : (r u : ℕ) (w : World) → (mark_participant_left r u w).rooms ≡ w.rooms
unfolding mark_participant_left
rooms-mark_participant_left r u w = refl

-- After a user has left a room the user is not in it; every other membership, in this room and in all
-- others, is as before.
pub leave_room_members :
    (code : Text) (u : ℕ) (w : World) (c : Text) (v : ℕ)
    → member c v (leave_room code u w).1.rooms
      ≡ (if c == code && v == u then none else member c v w.rooms)
leave_room_members code u w c v = elim (Option-cases (get code w.rooms)) [
  | inl gone ↦
      ground
        (arith, leave_room-none code u w gone, member-none code v w.rooms gone, text_beq_iff c code)
  | inr (rd, there) ↦
      let w' = mark_participant_left rd.room.id u w in
      ground (
        arith,
        leave_room-some code u w rd there,
        member-keep_or_destroy c code v (drop_user u rd) w',
        rooms-mark_participant_left rd.room.id u w,
        get-drop_user u v rd,
        member-some code v rd w.rooms there,
        text_beq_iff c code,
      )
]

abbrev pub is_in : Text → ℕ → World → Bool
is_in c u w = has u (get_room_clients c w)

-- One round of the loop.
leave_if : ℕ → Text → World → World
leave_if u c w = if is_in c u w then (leave_room c u w).1 else w

remove_from-cons :
    (u : ℕ) (c : Text) (cs : List Text) (w : World)
    → remove_from u (c ∷ cs) w ≡ (
      (if is_in c u w
          then c ∷ (remove_from u cs (leave_if u c w)).0
          else (remove_from u cs (leave_if u c w)).0),
      (remove_from u cs (leave_if u c w)).1,
    )
unfolding remove_from leave_if
remove_from-cons u c cs w = refl

leave_if_members :
    (u : ℕ) (code : Text) (w : World) (c : Text) (v : ℕ)
    → member c v (leave_if u code w).rooms
      ≡ (if c == code && v == u then none else member c v w.rooms)
unfolding leave_if
leave_if_members u code w c v = ground (
  arith,
  leave_room_members code u w c v,
  member_lem code u w,
  text_beq_iff c code,
  nat_beq_iff v u,
)

remove_from_members :
    (u : ℕ) (cs : List Text) (w : World) (c : Text) (v : ℕ)
    → member c v (remove_from u cs w).1.rooms
      ≡ (if elem c cs && v == u then none else member c v w.rooms)
unfolding remove_from
remove_from_members u [] w c v = refl
remove_from_members u (code ∷ cs) w c v = ground (
  arith,
  remove_from_members u cs (leave_if u code w) c v,
  leave_if_members u code w c v,
  remove_from-cons u code cs w,
)

get_not_key : (c : Text) (d : Dict Text RoomData) → elem c (keys d) ≡ false → get c d ≡ none
unfolding get
get_not_key c [] e = refl
get_not_key c ((k, rd) ∷ d) e = ground (arith, get_not_key c d)

member_not_key :
    (c : Text) (v : ℕ) (rooms : Dict Text RoomData)
    → elem c (keys rooms) ≡ false
    → member c v rooms ≡ none
member_not_key c v rooms h = member-none c v rooms (get_not_key c rooms h)

-- After a disconnect the user is in no room; every other membership is as before.
pub remove_client_members :
    (u : ℕ) (w : World) (c : Text) (v : ℕ)
    → member c v (remove_client_from_all_rooms u w).1.rooms
      ≡ (if v == u then none else member c v w.rooms)
unfolding remove_client_from_all_rooms
remove_client_members u w c v =
    ground (arith, remove_from_members u (keys w.rooms) w c v, member_not_key c v w.rooms)

is_in-member : (c : Text) (u : ℕ) (w : World) → is_in c u w ≡ is_some (member c u w.rooms)
is_in-member c u w = ap is_some (member_lem c u w)

remove_from_left :
    (u : ℕ) (cs : List Text) (w : World) (c : Text)
    → elem c (remove_from u cs w).0 ≡ (elem c cs && is_in c u w)
unfolding remove_from
remove_from_left u [] w c = refl
remove_from_left u (code ∷ cs) w c = ground (
  arith,
  remove_from_left u cs (leave_if u code w) c,
  leave_if_members u code w c u,
  is_in-member c u (leave_if u code w),
  is_in-member c u w,
  remove_from-cons u code cs w,
  text_beq_iff c code,
  nat_beq_iff u u,
)

-- The codes that a disconnect returns are those of the rooms that the user was in.
pub remove_client_left :
    (u : ℕ) (w : World) (c : Text) → elem c (remove_client_from_all_rooms u w).0 ≡ is_in c u w
unfolding remove_client_from_all_rooms
remove_client_left u w c =
    ground
      (arith, remove_from_left u (keys w.rooms) w c, is_in-member c u w, member_not_key c u w.rooms)
