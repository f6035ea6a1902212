-- ===== src/Rooms/Admission.antt =====
-- Who is let into a room, told without the steps of `join_room`.
use quickonnect.Prelude.{
  ℕ, Bool, true, false, not, ◌&&◌, ◌||◌, Option, none, some, ◌∷◌, Text, text_eq, if◌then◌else◌, ◌≡◌,
  refl, arith, ◌∙◌, is_some, Bool-cases, inl, inr,
}
use quickonnect.Prelude.Dict.{get}
use quickonnect.World.{World, RoomData, Session, Env, Room, select_room, redis_get}
use quickonnect.Rooms.{
  join_room, enter, enter_room, open_room, get_room_server, is_dm_room, get_or_create_room_in_db,
  is_elsewhere,
}
use quickonnect.Rooms.Joining.{accepted}

-- What the database says of a room: the answer to the query, and to the insertion that follows where there
-- is none.
abbrev pub is_given : Option (Option Room) → Option ℕ → Bool
is_given none inserted = false
is_given (some none) inserted = is_some inserted
is_given (some (some room)) inserted = true

-- The room is open on this server, or the database has it or takes it.
unfoldable pub is_available : Env → Text → ℕ → World → Bool
is_available env room_code user_id w =
    is_some (get room_code w.rooms)
    || is_given (env.select_room_answer w.log room_code)
        (env.insert_room_answer (select_room room_code ∷ w.log) room_code user_id)

-- Whether a user may join: a room of a direct message is never looked up in Redis, and any other must not
-- be on another server.
unfoldable pub may_join : Env → Text → ℕ → World → Bool
unfolding is_available
may_join env room_code user_id w =
    if is_dm_room room_code
    then is_available env room_code user_id w
    else not (is_elsewhere env (env.redis_get_answer w.log room_code))
      && is_available env room_code user_id (record w { log = redis_get room_code ∷ w.log })

accepted-enter :
    (room_code : Text) (s : Session) (found : Option RoomData) (w : World)
    → accepted (enter room_code s found w) ≡ is_some found
unfolding enter
accepted-enter room_code s none w = refl
accepted-enter room_code s (some rd) w = refl

is_available-open_room :
    (env : Env) (room_code : Text) (user_id : ℕ) (w : World)
    → is_some (open_room env room_code user_id w).0 ≡ is_available env room_code user_id w
unfolding is_available open_room get_or_create_room_in_db
is_available-open_room env room_code user_id w = ground arith

enter_room-is_available :
    (env : Env) (room_code : Text) (s : Session) (w : World)
    → accepted (enter_room env room_code s w) ≡ is_available env room_code s.user_id w
unfolding enter_room
enter_room-is_available env room_code s w =
    let (found, w') = open_room env room_code s.user_id w in
    accepted-enter room_code s found w' ∙ is_available-open_room env room_code s.user_id w

-- A join is accepted exactly where the user may join.
pub join_room-may_join :
    (env : Env) (room_code : Text) (s : Session) (w : World)
    → accepted (join_room env room_code s w) ≡ may_join env room_code s.user_id w
unfolding join_room get_room_server may_join
join_room-may_join env room_code s w = elim (Bool-cases (is_dm_room room_code)) [
  | inl dm ↦ rw dm (enter_room-is_available env room_code s w)
  | inr regular ↦
      rw regular (elim (Bool-cases (is_elsewhere env (env.redis_get_answer w.log room_code))) [
        | inl elsewhere ↦ rw elsewhere refl
        | inr here ↦
            rw here (enter_room-is_available env room_code s (get_room_server env room_code w).1)
      ])
]
