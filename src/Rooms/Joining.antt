-- ===== src/Rooms/Joining.antt =====
-- Joining a room: who is in it afterwards, the redirect, and what stays as it was.
use mathlib.Core.Path.{subst}
use quickonnect.Prelude.{
  ℕ, Bool, true, false, ◌&&◌, Option, none, some, [], ◌∷◌, ◌++◌, Text, nat_eq, text_eq, ◌==◌,
  if◌then◌else◌, ◌≡◌, ◌≢◌, refl, sym, ap, ◌∙◌, arith, text_beq_iff, Bool-cases, inl, inr,
  Option-cases, is_some,
}
use quickonnect.Prelude.Dict.{Dict, get, put, get-put}
use quickonnect.World.{World, RoomData, Session, Env, Room, redis_get}
use quickonnect.Rooms.{
  RoomState, join_room, enter, enter_room, open_room, get_room_server, record_participant,
  is_dm_room, new_room_data, get_or_create_room_in_db, register_room_in_redis, is_elsewhere,
  redirect_prefix,
}
use quickonnect.Rooms.Maps.{member, member-put, member-some, member-none}
use quickonnect.Rooms.Occupied.{IsOccupied, put-IsOccupied}

-- What opening a room gives, and that it leaves the table of rooms alone.
open_room_rooms :
    (env : Env) (code : Text) (u : ℕ) (w : World) → (open_room env code u w).1.rooms ≡ w.rooms
unfolding open_room get_or_create_room_in_db register_room_in_redis
open_room_rooms env code u w = ground arith

-- An open room is the one in the table, or a new one with no client.
open_room-there :
    (env : Env) (code : Text) (u : ℕ) (w : World) (rd : RoomData)
    → get code w.rooms ≡ some rd
    → open_room env code u w ≡ (some rd, w)
unfolding open_room
open_room-there env code u w rd h = rw (h, open_room)

-- The two outcomes for a room that was not open.
open_room-found :
    (env : Env) (code : Text) (u : ℕ) (w : World) (room : Room)
    → get code w.rooms ≡ none
    → (get_or_create_room_in_db env code u w).0 ≡ some room
    → (open_room env code u w).0
      ≡ some (new_room_data env room (get_or_create_room_in_db env code u w).1)
unfolding open_room
open_room-found env code u w room gone h = rw (gone, open_room) (rw h)

open_room-failed :
    (env : Env) (code : Text) (u : ℕ) (w : World)
    → get code w.rooms ≡ none
    → (get_or_create_room_in_db env code u w).0 ≡ none
    → (open_room env code u w).0 ≡ none
unfolding open_room
open_room-failed env code u w gone h = rw (gone, open_room) (rw h)

open_room-new :
    (env : Env) (code : Text) (u : ℕ) (w : World) (rd : RoomData) (v : ℕ)
    → get code w.rooms ≡ none
    → (open_room env code u w).0 ≡ some rd
    → get v rd.clients ≡ none
unfolding new_room_data get
open_room-new env code u w rd v gone h =
    elim (Option-cases (get_or_create_room_in_db env code u w).0) [
      | inl failed ↦ absurd (cc (open_room-failed env code u w gone failed, h))
      | inr (room, found) ↦
          let w' = (get_or_create_room_in_db env code u w).1 in
          let same : rd ≡ new_room_data env room w' =
            cc (open_room-found env code u w room gone found, h) in
          ap (λ r. get v r.clients) same
    ]

open_room_data :
    (env : Env) (code : Text) (u : ℕ) (w : World) (rd : RoomData) (v : ℕ)
    → (open_room env code u w).0 ≡ some rd
    → get v rd.clients ≡ member code v w.rooms
open_room_data env code u w rd v h = elim (Option-cases (get code w.rooms)) [
  | inr (old, there) ↦
      let same : rd ≡ old = cc (open_room-there env code u w old there, h) in
      rw same (sym (member-some code v old w.rooms there))
  | inl gone ↦ open_room-new env code u w rd v gone h ∙ sym (member-none code v w.rooms gone)
]

abbrev pub accepted : (Option RoomState × Option Text) × World → Bool
accepted r = is_some r.0.0

enter_members :
    (code : Text) (s : Session) (found : Option RoomData) (w : World) (c : Text) (v : ℕ)
    → ((rd : RoomData) → found ≡ some rd → get v rd.clients ≡ member code v w.rooms)
    → member c v (enter code s found w).1.rooms ≡ (
        if accepted (enter code s found w) && (c == code && v == s.user_id)
        then some s
        else member c v w.rooms)
unfolding enter record_participant
enter_members code s none w c v h = refl
enter_members code s (some rd) w c v h =
    let rd' = record rd { clients = put s.user_id s rd.clients } in
    member-put c code v rd' w.rooms
    ∙ ground (arith, get-put s.user_id v s rd.clients, h rd refl, text_beq_iff c code)

-- A user who is let in is a member of the room by the handler that asked; every other membership is
-- as before. Who is refused changes no membership.
pub enter_room_members :
    (env : Env) (code : Text) (s : Session) (w : World) (c : Text) (v : ℕ)
    → member c v (enter_room env code s w).1.rooms ≡ (
        if accepted (enter_room env code s w) && (c == code && v == s.user_id)
        then some s
        else member c v w.rooms)
unfolding enter_room
enter_room_members env code s w c v =
    let (found, w') = open_room env code s.user_id w in
    let same = open_room_rooms env code s.user_id w in
    subst
      (λ r. member c v (enter code s found w').1.rooms ≡ (
        if accepted (enter code s found w') && (c == code && v == s.user_id)
        then some s
        else member c v r))
      same
      (enter_members code s found w' c v
        (λ rd h. open_room_data env code s.user_id w rd v h ∙ ap (member code v) (sym same)))

-- A join is accepted, and then the user is a member by the handler that asked, or it is refused; in
-- either case every other membership of every room is as before.
pub join_room_members :
    (env : Env) (code : Text) (s : Session) (w : World) (c : Text) (v : ℕ)
    → member c v (join_room env code s w).1.rooms ≡ (
        if accepted (join_room env code s w) && (c == code && v == s.user_id)
        then some s
        else member c v w.rooms)
unfolding join_room get_room_server
join_room_members env code s w c v = elim (Bool-cases (is_dm_room code)) [
  | inl dm ↦ rw dm (enter_room_members env code s w c v)
  | inr regular ↦
      rw regular (elim (Bool-cases (is_elsewhere env (env.redis_get_answer w.log code))) [
        | inl elsewhere ↦ rw elsewhere
        | inr here ↦ rw here (enter_room_members env code s (get_room_server env code w).1 c v)
      ])
]

-- The redirect: for a room that Redis pins to another server, the answer names that server, and
-- nothing happens but the question to Redis.
pub join_room_redirect :
    (env : Env) (code server : Text) (s : Session) (w : World)
    → is_dm_room code ≡ false
    → env.redis_get_answer w.log code ≡ some server
    → server ≢ env.server_id
    → join_room env code s w
      ≡ ((none, some (redirect_prefix ++ server)), record w { log = redis_get code ∷ w.log })
unfolding join_room get_room_server
join_room_redirect env code server s w regular pinned other =
    let elsewhere : (server == env.server_id) ≡ false =
      ground (arith, text_beq_iff server env.server_id, other) in
    rw (regular, pinned, elsewhere)

-- A direct-message room is never looked up in Redis, and so never redirected: the join goes straight
-- to the room.
pub join_room_dm :
    (env : Env) (code : Text) (s : Session) (w : World)
    → is_dm_room code ≡ true
    → join_room env code s w ≡ enter_room env code s w
unfolding join_room
join_room_dm env code s w dm = rw dm

clients-put : (u : ℕ) (s : Session) (d : Dict ℕ Session) → put u s d ≢ []
unfolding put
clients-put u s [] h = cc h
clients-put u s ((v, t) ∷ d) h = ground arith

enter-IsOccupied :
    (code : Text) (s : Session) (found : Option RoomData) (w : World)
    → IsOccupied w.rooms
    → IsOccupied (enter code s found w).1.rooms
unfolding enter record_participant
enter-IsOccupied code s none w o = o
enter-IsOccupied code s (some rd) w o =
    put-IsOccupied code (record rd { clients = put s.user_id s rd.clients }) w.rooms
      (clients-put s.user_id s rd.clients) o

enter_room-IsOccupied :
    (env : Env) (code : Text) (s : Session) (w : World)
    → IsOccupied w.rooms
    → IsOccupied (enter_room env code s w).1.rooms
unfolding enter_room
enter_room-IsOccupied env code s w o =
    let (found, w') = open_room env code s.user_id w in
    enter-IsOccupied code s found w'
      (subst IsOccupied (sym (open_room_rooms env code s.user_id w)) o)

-- Where every room has a client, every room has one after a join, whatever Redis and the database
-- answer.
pub join_room-IsOccupied :
    (env : Env) (code : Text) (s : Session) (w : World)
    → IsOccupied w.rooms
    → IsOccupied (join_room env code s w).1.rooms
unfolding join_room get_room_server
join_room-IsOccupied env code s w o = elim (Bool-cases (is_dm_room code)) [
  | inl dm ↦ rw dm (enter_room-IsOccupied env code s w o)
  | inr regular ↦
      rw regular (elim (Bool-cases (is_elsewhere env (env.redis_get_answer w.log code))) [
        | inl elsewhere ↦ rw elsewhere o
        | inr here ↦ rw here (enter_room-IsOccupied env code s (get_room_server env code w).1 o)
      ])
]
