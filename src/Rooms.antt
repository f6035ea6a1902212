-- ===== src/Rooms.antt =====
-- server/room_manager.py: `RoomManager`, as steps on the server's state. The lock makes each method
-- that takes it one step.
pub mod Maps
pub mod Occupied
pub mod Joining
pub mod Admission
pub mod Leaving
pub mod Refinement
use quickonnect.Prelude.{
  ℕ, Bool, true, false, not, ◌&&◌, Option, none, some, List, [], ◌∷◌, ◌++◌, Text, nat_eq, text_eq,
  ◌==◌, if◌then◌else◌, codes, length, elem,
}
use quickonnect.Prelude.Dict.{Dict, get, put, erase, has, keys, values}
use quickonnect.Json
use quickonnect.Json.{Json, dict, num, str, arr, items}
use quickonnect.Screen
use quickonnect.Camera
use quickonnect.Mixer
use quickonnect.Stt
use quickonnect.Whiteboard
use quickonnect.World.{
  World, Env, Room, RoomData, Session, Call, redis_get, redis_set, redis_delete, select_room,
  insert_room, insert_participant, update_left, select_board, destroyed,
}

-- `str.startswith`
unfoldable pub starts_with : Text → Text → Bool
starts_with [] t = true
starts_with (p ∷ ps) [] = false
starts_with (p ∷ ps) (c ∷ t) = p == c && starts_with ps t

-- `_is_dm_room`
unfoldable pub is_dm_room : Text → Bool
unfolding starts_with
is_dm_room room_code = starts_with (codes "DM-") room_code

-- shared/models.py: `Participant` and `RoomState`.
pub record Participant : Type 0 where
  pub user_id : ℕ
  pub username : Text

pub record RoomState : Type 0 where
  pub room_id : ℕ
  pub room_code : Text
  pub participants : List Participant

abbrev pub note : Call → World → World
note c w = record w { log = c ∷ w.log }

-- `_register_room_in_redis`, `_unregister_room_from_redis`, `_record_participant` and
-- `_mark_participant_left`: a failure is logged and forgotten.
unfoldable pub register_room_in_redis : Env → Text → World → World
register_room_in_redis env room_code = note (redis_set room_code env.server_id)

unfoldable pub unregister_room_from_redis : Text → World → World
unregister_room_from_redis room_code = note (redis_delete room_code)

unfoldable pub record_participant : ℕ → ℕ → World → World
record_participant room_id user_id = note (insert_participant room_id user_id)

unfoldable pub mark_participant_left : ℕ → ℕ → World → World
mark_participant_left room_id user_id = note (update_left room_id user_id)

-- `_get_room_server`
unfoldable pub get_room_server : Env → Text → World → Option Text × World
get_room_server env room_code w =
    (env.redis_get_answer w.log room_code, note (redis_get room_code) w)

-- `_get_or_create_room_in_db`
unfoldable pub get_or_create_room_in_db : Env → Text → ℕ → World → Option Room × World
get_or_create_room_in_db env room_code creator_id w =
    let w' = note (select_room room_code) w in
    elim (env.select_room_answer w.log room_code) [
      | none ↦ (none, w')
      | some found ↦ elim found [
        | some room ↦ (some room, w')
        | none ↦ (
          (elim (env.insert_room_answer w'.log room_code creator_id) [
            | none ↦ none
            | some id ↦ some (record { id = id; room_code = room_code; created_by = creator_id })
          ]),
          note (insert_room room_code creator_id) w',
        )
      ]
    ]

-- `_generate_room_code`, of the two parts that are drawn.
abbrev pub generate_room_code : Text → Text → Text
generate_room_code part₁ part₂ = part₁ ++ (codes "-" ++ part₂)

-- `create_room`
unfoldable pub create_room : Env → Text → ℕ → World → Option Room × World
unfolding register_room_in_redis
create_room env room_code user_id w =
    let w' = note (insert_room room_code user_id) w in
    elim (env.insert_room_answer w.log room_code user_id) [
      | none ↦ (none, w')
      | some id ↦ (
        some (record { id = id; room_code = room_code; created_by = user_id }),
        register_room_in_redis env room_code w',
      )
    ]

-- `_create_audio_state`, and the room's other parts.
unfoldable pub new_room_data : Env → Room → World → RoomData
new_room_data env room w = record {
  room = room;
  clients = [];
  screen = Screen.init;
  audio = Mixer.init env.stt_enabled;
  whiteboard =
      Whiteboard.load_from_db (env.snapshot_answer w.log room.id)
        (λ seq. env.rows_answer w.log room.id seq) (Whiteboard.blank true);
  camera = Camera.init;
}

-- `_stop_audio_state`
unfoldable pub stop_audio_state : RoomData → RoomData
stop_audio_state rd =
    let audio = Mixer.stop rd.audio in
    record rd {
      audio = record audio { stt_manager = Stt.stop audio.stt_manager };
      whiteboard = Whiteboard.stop rd.whiteboard;
    }

-- `_get_participants`: handlers with an empty name are left out.
unfoldable pub named : Dict ℕ Session → List Participant
named [] = []
named ((uid, s) ∷ d) = elim s.username [
  | [] ↦ named d
  | c ∷ n ↦ record { user_id = uid; username = s.username } ∷ named d
]

unfoldable pub get_participants : Text → World → List Participant
unfolding named
get_participants room_code w = elim (get room_code w.rooms) [
  | none ↦ []
  | some rd ↦ named rd.clients
]

-- The accessors of a room's parts.
unfoldable pub get_screen_state : Text → World → Option Screen.ScreenRelayState
get_screen_state room_code w = elim (get room_code w.rooms) [
  | none ↦ none
  | some rd ↦ some rd.screen
]

unfoldable pub get_audio_mixer : Text → World → Option Mixer.AudioMixerState
get_audio_mixer room_code w = elim (get room_code w.rooms) [ none ↦ none | some rd ↦ some rd.audio ]

unfoldable pub get_whiteboard_state : Text → World → Option Whiteboard.WhiteboardState
get_whiteboard_state room_code w = elim (get room_code w.rooms) [
  | none ↦ none
  | some rd ↦ some rd.whiteboard
]

unfoldable pub get_camera_state : Text → World → Option Camera.CameraState
get_camera_state room_code w = elim (get room_code w.rooms) [
  | none ↦ none
  | some rd ↦ some rd.camera
]

unfoldable pub get_room : Text → World → Option Room
get_room room_code w = elim (get room_code w.rooms) [ none ↦ none | some rd ↦ some rd.room ]

unfoldable pub get_room_clients : Text → World → Dict ℕ Session
get_room_clients room_code w = elim (get room_code w.rooms) [ none ↦ [] | some rd ↦ rd.clients ]

-- The parts are shared objects: what a handler does to one is seen in the room.
unfoldable pub set_room : Text → (RoomData → RoomData) → World → World
set_room room_code f w = elim (get room_code w.rooms) [
  | none ↦ w
  | some rd ↦ record w { rooms = put room_code (f rd) w.rooms }
]

-- The room that a join works on, under the lock.
unfoldable pub open_room : Env → Text → ℕ → World → Option RoomData × World
unfolding get_or_create_room_in_db new_room_data register_room_in_redis
open_room env room_code user_id w = elim (get room_code w.rooms) [
  | some rd ↦ (some rd, w)
  | none ↦
      let (found, w') = get_or_create_room_in_db env room_code user_id w in
      elim found [
        | none ↦ (none, w')
        | some room ↦ (
          some (new_room_data env room w'),
          (if is_dm_room room_code
              then note (select_board room.id) w'
              else register_room_in_redis env room_code (note (select_board room.id) w')),
        )
      ]
]

abbrev pub redirect_prefix : Text
redirect_prefix = codes "REDIRECT:"

abbrev pub no_room : Text
no_room = codes "Failed to create or find room"

-- The part of `join_room` that follows once the room is found, or is not.
unfoldable pub enter :
    Text → Session → Option RoomData → World → (Option RoomState × Option Text) × World
enter room_code s none w = ((none, some no_room), w)
enter room_code s (some rd) w =
    let w₁ = record w {
      rooms = put room_code (record rd { clients = put s.user_id s rd.clients }) w.rooms;
    } in
    let w₂ = record_participant rd.room.id s.user_id w₁ in
    (
      (
        some (record {
          room_id = rd.room.id;
          room_code = room_code;
          participants = get_participants room_code w₂;
        }),
        none,
      ),
      w₂,
    )

-- The part of `join_room` after the redirect check.
unfoldable pub enter_room : Env → Text → Session → World → (Option RoomState × Option Text) × World
enter_room env room_code s w =
    let (found, w') = open_room env room_code s.user_id w in enter room_code s found w'

abbrev pub is_elsewhere : Env → Option Text → Bool
is_elsewhere env none = false
is_elsewhere env (some server) = not (server == env.server_id)

abbrev pub or_empty : Option Text → Text
or_empty none = []
or_empty (some t) = t

unfoldable pub join_room : Env → Text → Session → World → (Option RoomState × Option Text) × World
join_room env room_code s w =
    if is_dm_room room_code
    then enter_room env room_code s w
    else (let (server, w') = get_room_server env room_code w in
        if is_elsewhere env server
        then ((none, some (redirect_prefix ++ or_empty server)), w')
        else enter_room env room_code s w')

-- The room's data without a user.
unfoldable pub drop_user : ℕ → RoomData → RoomData
drop_user user_id rd = record rd {
  audio = Mixer.remove_participant user_id rd.audio;
  camera = (Camera.stop_camera user_id rd.camera).0;
  clients = erase user_id rd.clients;
}

-- A room is given up with its last client.
unfoldable pub keep_or_destroy : Text → RoomData → World → World
unfolding stop_audio_state unregister_room_from_redis
keep_or_destroy room_code rd w = elim rd.clients [
  | e ∷ d ↦ record w { rooms = put room_code rd w.rooms }
  | [] ↦
      let w' =
        note (destroyed room_code (stop_audio_state rd))
          (record w { rooms = erase room_code w.rooms }) in
      if is_dm_room room_code then w' else unregister_room_from_redis room_code w'
]

unfoldable pub leave_room : Text → ℕ → World → List Session × World
unfolding drop_user mark_participant_left keep_or_destroy
leave_room room_code user_id w = elim (get room_code w.rooms) [
  | none ↦ ([], w)
  | some rd ↦
      let rd' = drop_user user_id rd in
      (
        values rd'.clients,
        keep_or_destroy room_code rd' (mark_participant_left rd.room.id user_id w),
      )
]

-- The loop of `remove_client_from_all_rooms` over the codes that there were.
unfoldable pub remove_from : ℕ → List Text → World → List Text × World
unfolding leave_room
remove_from user_id [] w = ([], w)
remove_from user_id (room_code ∷ rest) w =
    let inside = has user_id (get_room_clients room_code w) in
    let (left, w') =
      remove_from user_id rest (if inside then (leave_room room_code user_id w).1 else w) in
    ((if inside then room_code ∷ left else left), w')

unfoldable pub remove_client_from_all_rooms : ℕ → World → List Text × World
unfolding remove_from
remove_client_from_all_rooms user_id w = remove_from user_id (keys w.rooms) w

-- `len(seen_users)`: the users of all rooms, each once.
unfoldable pub add_users : List ℕ → List ℕ → List ℕ
add_users [] seen = seen
add_users (u ∷ us) seen = add_users us (if elem u seen then seen else u ∷ seen)

unfoldable pub seen_users : Dict Text RoomData → List ℕ → List ℕ
unfolding add_users
seen_users [] seen = seen
seen_users ((room_code, rd) ∷ d) seen = seen_users d (add_users (keys rd.clients) seen)

unfoldable pub get_connection_count : World → ℕ
unfolding seen_users
get_connection_count w = length (seen_users w.rooms [])
