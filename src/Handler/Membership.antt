-- ===== src/Handler/Membership.antt =====
-- server/client_handler.py: joining and leaving a room.
pub mod Departure
pub mod Redirect
use quickonnect.Prelude.{
  ℕ, Bool, true, false, not, ◌&&◌, ◌||◌, Option, none, some, List, [], ◌∷◌, ◌++◌, map, Text, String,
  nat_eq, text_eq, string_eq, ◌==◌, if◌then◌else◌, codes,
}
use quickonnect.Prelude.Dict.{get}
use quickonnect.Prelude.Int.{ℤ, pos}
use quickonnect.Json
use quickonnect.Json.{Json, Fields, dict, num, str, bool, null, obj, arr, items, fields}
use quickonnect.Messages.{Message, oldest_first, message_json}
use quickonnect.Packet
use quickonnect.Screen
use quickonnect.Screen.{ScreenRelayState, ShareInfo}
use quickonnect.Camera
use quickonnect.Camera.{CameraUser}
use quickonnect.Whiteboard
use quickonnect.Rooms.{
  Participant, RoomState, join_room, leave_room, get_room_clients, get_screen_state,
  get_camera_state, get_whiteboard_state, starts_with, redirect_prefix, note, set_room,
}
use quickonnect.Handler.{
  text_field, stripped, is_empty, add_room, discard_room, set_screen, broadcast_others, send_error,
  room_code_required,
}
use quickonnect.Handler.Share.{stop_payload, revoke_payload}
use quickonnect.World.{
  World, Env, Session, Proc, Done, pure, raise, gets, done, modify, ◌>>=◌, ◌>>◌, send, deliver,
  deliver_all, redis_hget, select_history,
}

-- `error.split(":", 1)[1]`: what follows the first colon; `none` raises, where there is none.
unfoldable pub after_colon : Text → Option Text
after_colon [] = none
after_colon (c ∷ t) = let rest = after_colon t in if c == b':' then some t else rest

abbrev pub on_another_server : Text
on_another_server = codes "Room is on another server"

-- `server_info[0] if server_info else ""`
abbrev host_of : Option (Text × ℕ) → Text
host_of none = []
host_of (some (host, port)) = host

abbrev port_of : Option (Text × ℕ) → ℕ
port_of none = 0
port_of (some (host, port)) = port

abbrev pub redirect_payload : Text → Option (Text × ℕ) → Json
redirect_payload room_code server_info = dict (
    ("code", num 307)
    ∷ ("message", str on_another_server)
    ∷ ("redirect_host", str (host_of server_info))
    ∷ ("redirect_port", num (port_of server_info))
    ∷ ("room_code", str room_code)
    ∷ [])

-- `get_server_address` asks Redis.
unfoldable pub get_server_address : Env → Text → Proc (Option (Text × ℕ))
get_server_address env server w =
    (some (env.server_address_answer w.log server), note (redis_hget server) w)

unfoldable pub send_redirect : Env → Session → Text → Option Text → Proc Done
unfolding get_server_address
send_redirect env me room_code none = raise
send_redirect env me room_code (some server) = do
  server_info ← get_server_address env server
  send env me Packet.error (redirect_payload room_code server_info)

unfoldable pub refuse_join : Env → Session → Text → Text → Proc Done
unfolding send_redirect
refuse_join env me room_code error =
    if starts_with redirect_prefix error
    then send_redirect env me room_code (after_colon error)
    else send_error env me 500 error

-- The dicts of `to_dict`.
abbrev pub participant_json : Participant → Json
participant_json p = dict (("user_id", num p.user_id) ∷ ("username", str p.username) ∷ [])

abbrev pub camera_json : CameraUser → Json
camera_json c = dict (("user_id", num c.user_id) ∷ ("username", str c.username) ∷ [])

abbrev pub or_null_num : Option ℕ → Json
or_null_num none = null
or_null_num (some n) = num n

abbrev pub or_null_str : Option Text → Json
or_null_str none = null
or_null_str (some t) = str t

abbrev pub share_json : ShareInfo → Json
share_json i = dict (
    ("sharer_user_id", num i.sharer_user_id)
    ∷ ("sharer_username", str i.sharer_username)
    ∷ ("controller_user_id", or_null_num i.controller_user_id)
    ∷ ("controller_username", or_null_str i.controller_username)
    ∷ [])

-- The entry `screen`, if a share is in progress.
unfoldable pub screen_entry : Option ScreenRelayState → List (String × Json)
screen_entry none = []
screen_entry (some screen) = elim (Screen.get_state screen) [
  | none ↦ []
  | some info ↦ ("screen", share_json info) ∷ []
]

unfoldable pub other_cameras : ℕ → List CameraUser → List Json
other_cameras user_id [] = []
other_cameras user_id (c ∷ l) =
    if c.user_id == user_id
    then other_cameras user_id l
    else camera_json c ∷ other_cameras user_id l

unfoldable pub camera_entry : ℕ → Option Camera.CameraState → List (String × Json)
unfolding other_cameras
camera_entry user_id none = []
camera_entry user_id (some camera) =
    ("cameras", arr (items (other_cameras user_id (Camera.get_active camera)))) ∷ []

unfoldable pub state_payload : Session → RoomState → World → Json
unfolding screen_entry camera_entry
state_payload me state w = dict (
    ("room_id", num state.room_id)
    ∷ ("room_code", str state.room_code)
    ∷ ("participants", arr (items (map participant_json state.participants)))
    ∷ (screen_entry (get_screen_state state.room_code w)
        ++ camera_entry me.user_id (get_camera_state state.room_code w)))

-- An event's dict, with its id unless it came from the database.
abbrev pub event_fields : Whiteboard.Event → List (String × Json)
event_fields e =
    ("seq_num", num e.seq_num)
    ∷ ("user_id", num e.user_id)
    ∷ ("event_type", str e.event_type)
    ∷ ("payload", obj e.payload)
    ∷ (if e.from_db then [] else ("client_event_id", or_null_str e.client_event_id) ∷ [])

abbrev pub event_json : Whiteboard.Event → Json
event_json e = dict (event_fields e)

-- `get_snapshot_b64`: empty bytes count as no snapshot.
unfoldable pub get_snapshot_b64 : Env → Whiteboard.WhiteboardState → Json
get_snapshot_b64 env wb = elim wb.snapshot_png_bytes [
  | none ↦ null
  | some png ↦ elim png [ [] ↦ null | b ∷ rest ↦ str (env.encode_base64 (b ∷ rest)) ]
]

abbrev pub sync_payload : Env → Text → Whiteboard.WhiteboardState → Json
sync_payload env room_code wb = dict (
    ("room_code", str room_code)
    ∷ ("snapshot", get_snapshot_b64 env wb)
    ∷ ("events", arr (items (map event_json (Whiteboard.get_active_events none wb))))
    ∷ [])

unfoldable pub send_board : Env → Session → Text → Proc Done
send_board env me room_code w = elim (get_whiteboard_state room_code w) [
  | none ↦ done w
  | some wb ↦ send env me Packet.whiteboard_sync (sync_payload env room_code wb) w
]

-- `message_service.get_history`
unfoldable pub get_history : Env → ℕ → Proc (List Message)
get_history env room_id w =
    (some (oldest_first (env.history_answer w.log room_id)), note (select_history room_id) w)

abbrev pub update_payload : Text → String → Session → Json
update_payload room_code event me = dict (
    ("room_code", str room_code)
    ∷ ("event", str (codes event))
    ∷ ("user_id", num me.user_id)
    ∷ ("username", str me.username)
    ∷ [])

unfoldable pub welcome : Env → Session → Text → RoomState → Proc Done
unfolding get_history send_board
welcome env me room_code state = do
  modify (add_room me room_code)
  payload ← gets (state_payload me state)
  send env me Packet.room_state payload
  history ← get_history env state.room_id
  send env me Packet.message_history (
      dict (
        ("room_id", num state.room_id) ∷ ("messages", arr (items (map message_json history))) ∷ []))
  send_board env me room_code
  modify
      (broadcast_others env me room_code Packet.room_update (update_payload room_code "joined" me))

-- `room_manager.join_room`, and what the handler does with its two results. A state is there
-- exactly where no error is.
unfoldable pub join : Env → Session → Text → Proc Done
unfolding refuse_join welcome
join env me room_code w =
    let ((state, error), w') = join_room env room_code me w in
    elim error [
      | some message ↦ refuse_join env me room_code message w'
      | none ↦ elim state [ none ↦ raise w' | some s ↦ welcome env me room_code s w' ]
    ]

unfoldable pub handle_join_room : Env → Session → Fields → Proc Done
unfolding join
handle_join_room env me payload = do
  room_code ← text_field "room_code" payload
  if is_empty room_code then send_error env me 400 room_code_required else join env me room_code

-- What a user gives up in a room's screen share: the share, or else the control of it.
unfoldable pub surrender_screen : Env → Session → Text → World → World
surrender_screen env me room_code w = elim (get_screen_state room_code w) [
  | none ↦ w
  | some screen ↦
      let (without_share, was_sharer) = Screen.stop_if_sharer me.user_id screen in
      let (without_control, was_controller) = Screen.clear_controller_if me.user_id screen in
      if was_sharer
      then broadcast_others env me room_code Packet.screen_stop (stop_payload room_code me.user_id)
          (set_screen room_code without_share w)
      else if was_controller
      then elim (Screen.sharer_user_id without_control) [
        | none ↦ w
        | some sharer ↦
            broadcast_others env me room_code Packet.remote_grant (revoke_payload room_code sharer)
              (set_screen room_code without_control w)
      ]
      else w
]

abbrev pub camera_stop_payload : Text → Session → Json
camera_stop_payload room_code me =
    dict (("room_code", str room_code) ∷ ("user_id", num me.user_id) ∷ [])

-- `camera.stop_camera`, on the room's shared state.
unfoldable pub stop_own_camera : Session → Text → World → Bool × World
stop_own_camera me room_code w = elim (get_camera_state room_code w) [
  | none ↦ (false, w)
  | some camera ↦
      let (camera', was_on) = Camera.stop_camera me.user_id camera in
      (was_on, set_room room_code (λ rd. record rd { camera = camera' }) w)
]

-- The packets to each who remains, one recipient after the other.
unfoldable pub tell_remaining : Env → Session → Text → Bool → List Session → World → World
unfolding deliver
tell_remaining env me room_code camera_stopped [] w = w
tell_remaining env me room_code camera_stopped (s ∷ l) w =
    let w₁ =
      if camera_stopped
      then deliver env s.conn Packet.camera_stop (camera_stop_payload room_code me) w
      else w in
    tell_remaining env me room_code camera_stopped l
      (deliver env s.conn Packet.room_update (update_payload room_code "left" me) w₁)

unfoldable pub leave : Env → Session → Text → World → World
leave env me room_code w =
    let w₁ = surrender_screen env me room_code w in
    let (camera_stopped, w₂) = stop_own_camera me room_code w₁ in
    let (remaining, w₃) = leave_room room_code me.user_id (discard_room me room_code w₂) in
    tell_remaining env me room_code camera_stopped remaining w₃

unfoldable pub handle_leave_room : Env → Session → Fields → Proc Done
handle_leave_room env me payload = do
  room_code ← text_field "room_code" payload
  if is_empty room_code then done else modify (leave env me room_code)
