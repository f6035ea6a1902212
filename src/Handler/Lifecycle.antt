-- ===== src/Handler/Lifecycle.antt =====
-- server/client_handler.py: which handler a packet reaches, the main loop, and the end of a connection.
pub mod Cleanup
use quickonnect.Prelude.{
  ℕ, Bool, false, not, Option, none, some, List, [], ◌∷◌, Text, nat_eq, if◌then◌else◌, elem,
}
use quickonnect.Json.{Json, Fields, dict, num, str, obj, bool, null}
use quickonnect.Packet
use quickonnect.Packet.{PacketType}
use quickonnect.Protocol.{Message}
use quickonnect.Screen
use quickonnect.Rooms.{get_screen_state, remove_client_from_all_rooms, note}
use quickonnect.Server
use quickonnect.Server.{unregister_client, register_client}
use quickonnect.Handler.{current_rooms, set_screen, broadcast, broadcast_others}
use quickonnect.Handler.Share
use quickonnect.Handler.Share.{stop_payload}
use quickonnect.Handler.Membership
use quickonnect.Handler.Membership.{
  or_null_num, camera_stop_payload, stop_own_camera, update_payload,
}
use quickonnect.Handler.Media
use quickonnect.Handler.Board
use quickonnect.Handler.Chat
use quickonnect.Handler.Social
use quickonnect.World.{
  World, Env, Session, Proc, Done, raise, modify, ◌>>◌, call, send, deliver, closed,
}

unfoldable pub handle_heartbeat : Env → Session → Proc Done
handle_heartbeat env me w =
    send env me Packet.heartbeat (dict (("timestamp", num (env.now w.log)) ∷ [])) w

-- `_handle_health_query`, on a connection that is not authenticated.
unfoldable pub handle_health_query : Env → ℕ → World → World
handle_health_query env conn w = note (closed conn) (
    deliver env conn Packet.health_response
      (dict (("connection_count", num (Server.get_connection_count w)) ∷ ("cpu_load", num 0) ∷ []))
      w)

-- A handler that reads its payload's fields; every other payload has no `get`, and raises.
abbrev pub with_fields : (Fields → Proc Done) → Json → Proc Done
with_fields handler (obj payload) = handler payload
with_fields handler _ = raise

-- The table of `_dispatch`; `none` is a type that no handler is for.
unfoldable pub handler_of : Env → Session → PacketType → Option (Json → Proc Done)
handler_of env me Packet.join_room = some (with_fields (Membership.handle_join_room env me))
handler_of env me Packet.leave_room = some (with_fields (Membership.handle_leave_room env me))
handler_of env me Packet.chat_message = some (with_fields (Chat.handle_chat_message env me))
handler_of env me Packet.friend_request = some (with_fields (Social.handle_friend_request env me))
handler_of env me Packet.friend_response = some (with_fields (Social.handle_friend_response env me))
handler_of env me Packet.heartbeat = some (λ payload. handle_heartbeat env me)
handler_of env me Packet.screen_start = some (with_fields (Share.handle_screen_start env me))
handler_of env me Packet.screen_stop = some (with_fields (Share.handle_screen_stop env me))
handler_of env me Packet.screen_frame = some (with_fields (Share.handle_screen_frame env me))
handler_of env me Packet.camera_start = some (with_fields (Media.handle_camera_start env me))
handler_of env me Packet.camera_stop = some (with_fields (Media.handle_camera_stop env me))
handler_of env me Packet.camera_frame = some (with_fields (Media.handle_camera_frame env me))
handler_of env me Packet.remote_request = some (with_fields (Share.handle_remote_request env me))
handler_of env me Packet.remote_grant = some (with_fields (Share.handle_remote_grant env me))
handler_of env me Packet.remote_event = some (with_fields (Share.handle_remote_event env me))
handler_of env me Packet.audio_chunk = some (with_fields (Media.handle_audio_chunk env me))
handler_of env me Packet.draw_event = some (with_fields (Board.handle_draw_event env me))
handler_of env me Packet.export_request = some (with_fields (Board.handle_export_request env me))
handler_of env me Packet.room_invite = some (with_fields (Social.handle_room_invite env me))
handler_of env me Packet.public_key_announce =
    some (with_fields (Social.handle_public_key_announce me))
handler_of env me Packet.public_key_request =
    some (with_fields (Social.handle_public_key_request env me))
handler_of env me _ = none

-- `_dispatch`: an exception is logged, and what was done before it stays done.
unfoldable pub dispatch : Env → Session → Message → World → World
unfolding handler_of
dispatch env me packet w = elim (handler_of env me packet.packet_type) [
  | none ↦ w
  | some handler ↦ (handler packet.payload w).1
]

-- What `read_packet` comes to: a packet, the end of the connection, or no packet in time.
pub data Arrival : Type 0 where
  arrived : Message → Arrival
  connection_lost timed_out unreadable : Arrival

-- `self._running`, once the handler is in its loop.
abbrev pub is_running : Session → World → Bool
is_running me w = not (elem me.conn w.stopped)

-- `_main_loop` on what arrives; the last is taken to be followed by the end of the connection.
unfoldable pub main_loop : Env → Session → List Arrival → World → World
main_loop env me [] w = w
main_loop env me (arrived packet ∷ rest) w =
    let later = main_loop env me rest (dispatch env me packet w) in
    if is_running me w then later else w
main_loop env me (_ ∷ rest) w = w

abbrev pub lost_control_payload : Text → Option ℕ → Json
lost_control_payload room_code sharer = dict (
    ("room_code", str room_code)
    ∷ ("granted", bool false)
    ∷ ("target_user_id", null)
    ∷ ("target_username", null)
    ∷ ("sharer_user_id", or_null_num sharer)
    ∷ [])

-- The share that a user gives up at the end, or else the control of one.
unfoldable pub give_up_screen : Env → Session → Text → World → World
give_up_screen env me room_code w = elim (get_screen_state room_code w) [
  | none ↦ w
  | some screen ↦
      let (without_share, was_sharer) = Screen.stop_if_sharer me.user_id screen in
      let (without_control, was_controller) = Screen.clear_controller_if me.user_id screen in
      if was_sharer
      then broadcast_others env me room_code Packet.screen_stop (stop_payload room_code me.user_id)
          (set_screen room_code without_share w)
      else if was_controller
      then broadcast_others env me room_code Packet.remote_grant
          (lost_control_payload room_code (Screen.sharer_user_id without_control))
          (set_screen room_code without_control w)
      else w
]

unfoldable pub give_up_camera : Env → Session → Text → World → World
give_up_camera env me room_code w =
    let (was_on, w') = stop_own_camera me room_code w in
    if was_on
    then broadcast_others env me room_code Packet.camera_stop (camera_stop_payload room_code me) w'
    else w'

unfoldable pub give_up : Env → Session → List Text → World → World
unfolding give_up_screen give_up_camera
give_up env me [] w = w
give_up env me (room_code ∷ rest) w =
    give_up env me rest (give_up_camera env me room_code (give_up_screen env me room_code w))

unfoldable pub tell_left : Env → Session → List Text → World → World
tell_left env me [] w = w
tell_left env me (room_code ∷ rest) w =
    tell_left env me rest
      (broadcast env room_code Packet.room_update (update_payload room_code "left" me) w)

-- The part of `_cleanup` before the client is unregistered.
unfoldable pub vacate : Env → Session → World → World
unfolding give_up tell_left
vacate env me w =
    let w₁ = give_up env me (current_rooms me w) w in
    let (left_rooms, w₂) = remove_client_from_all_rooms me.user_id w₁ in
    tell_left env me left_rooms w₂

abbrev pub halt : Session → World → World
halt me w = record w { stopped = me.conn ∷ w.stopped }

-- `_cleanup` of a client that was authenticated.
unfoldable pub cleanup : Env → Session → Proc Done
unfolding vacate
cleanup env me = do
  modify (λ w. vacate env me (halt me w))
  unregister_client env me
  call (closed me.conn)

-- `run`, from the registration on.
unfoldable pub run_registered : Env → Session → List Arrival → Proc Done
run_registered env me arrivals w =
    let (registered, w₁) = register_client env me w in
    cleanup env me (elim registered [ none ↦ w₁ | some d ↦ main_loop env me arrivals w₁ ])
