-- ===== src/Packet.antt =====
-- shared/constants.py: the packet types and their numbers on the wire.
pub mod Codes
use quickonnect.Prelude.{
  ℕ, Bool, true, false, Option, none, some, nat_eq, ◌==◌, if◌then◌else◌, List, [], ◌∷◌,
}

pub data PacketType : Type 0 where
  client_hello : PacketType
  server_hello : PacketType
  auth_request : PacketType
  auth_response : PacketType
  register_request : PacketType
  register_response : PacketType
  login_request : PacketType
  login_response : PacketType
  join_room : PacketType
  room_state : PacketType
  leave_room : PacketType
  room_update : PacketType
  room_invite : PacketType
  room_invite_notify : PacketType
  chat_message : PacketType
  message_history : PacketType
  audio_chunk : PacketType
  mixed_audio : PacketType
  subtitle : PacketType
  screen_frame : PacketType
  screen_relay : PacketType
  screen_start : PacketType
  screen_stop : PacketType
  camera_start : PacketType
  camera_stop : PacketType
  camera_frame : PacketType
  camera_relay : PacketType
  remote_event : PacketType
  remote_request : PacketType
  remote_grant : PacketType
  draw_event : PacketType
  draw_broadcast : PacketType
  draw_ack : PacketType
  whiteboard_sync : PacketType
  export_request : PacketType
  file_transfer : PacketType
  friend_request : PacketType
  friend_response : PacketType
  friend_list : PacketType
  friend_update : PacketType
  public_key_announce : PacketType
  public_key_request : PacketType
  public_key_response : PacketType
  connect_request : PacketType
  connect_response : PacketType
  health_query : PacketType
  health_response : PacketType
  server_shutdown : PacketType
  error : PacketType
  heartbeat : PacketType

-- The value of the `IntEnum` member.
unfoldable pub code : PacketType → ℕ
code client_hello = 0x0001
code server_hello = 0x0002
code auth_request = 0x0010
code auth_response = 0x0011
code register_request = 0x0012
code register_response = 0x0013
code login_request = 0x0014
code login_response = 0x0015
code join_room = 0x0020
code room_state = 0x0021
code leave_room = 0x0022
code room_update = 0x0023
code room_invite = 0x0024
code room_invite_notify = 0x0025
code chat_message = 0x0030
code message_history = 0x0031
code audio_chunk = 0x0040
code mixed_audio = 0x0041
code subtitle = 0x0042
code screen_frame = 0x0050
code screen_relay = 0x0051
code screen_start = 0x0052
code screen_stop = 0x0053
code camera_start = 0x0054
code camera_stop = 0x0055
code camera_frame = 0x0056
code camera_relay = 0x0057
code remote_event = 0x0060
code remote_request = 0x0061
code remote_grant = 0x0062
code draw_event = 0x0070
code draw_broadcast = 0x0071
code draw_ack = 0x0072
code whiteboard_sync = 0x0073
code export_request = 0x0074
code file_transfer = 0x0075
code friend_request = 0x0080
code friend_response = 0x0081
code friend_list = 0x0082
code friend_update = 0x0083
code public_key_announce = 0x0090
code public_key_request = 0x0091
code public_key_response = 0x0092
code connect_request = 0x00F0
code connect_response = 0x00F1
code health_query = 0x00F2
code health_response = 0x00F3
code server_shutdown = 0x00FD
code error = 0x00FF
code heartbeat = 0x00FE

-- Every member with its value, in the order of the class.
abbrev pub members : List (ℕ × PacketType)
members =
    (0x0001, client_hello)
    ∷ (0x0002, server_hello)
    ∷ (0x0010, auth_request)
    ∷ (0x0011, auth_response)
    ∷ (0x0012, register_request)
    ∷ (0x0013, register_response)
    ∷ (0x0014, login_request)
    ∷ (0x0015, login_response)
    ∷ (0x0020, join_room)
    ∷ (0x0021, room_state)
    ∷ (0x0022, leave_room)
    ∷ (0x0023, room_update)
    ∷ (0x0024, room_invite)
    ∷ (0x0025, room_invite_notify)
    ∷ (0x0030, chat_message)
    ∷ (0x0031, message_history)
    ∷ (0x0040, audio_chunk)
    ∷ (0x0041, mixed_audio)
    ∷ (0x0042, subtitle)
    ∷ (0x0050, screen_frame)
    ∷ (0x0051, screen_relay)
    ∷ (0x0052, screen_start)
    ∷ (0x0053, screen_stop)
    ∷ (0x0054, camera_start)
    ∷ (0x0055, camera_stop)
    ∷ (0x0056, camera_frame)
    ∷ (0x0057, camera_relay)
    ∷ (0x0060, remote_event)
    ∷ (0x0061, remote_request)
    ∷ (0x0062, remote_grant)
    ∷ (0x0070, draw_event)
    ∷ (0x0071, draw_broadcast)
    ∷ (0x0072, draw_ack)
    ∷ (0x0073, whiteboard_sync)
    ∷ (0x0074, export_request)
    ∷ (0x0075, file_transfer)
    ∷ (0x0080, friend_request)
    ∷ (0x0081, friend_response)
    ∷ (0x0082, friend_list)
    ∷ (0x0083, friend_update)
    ∷ (0x0090, public_key_announce)
    ∷ (0x0091, public_key_request)
    ∷ (0x0092, public_key_response)
    ∷ (0x00F0, connect_request)
    ∷ (0x00F1, connect_response)
    ∷ (0x00F2, health_query)
    ∷ (0x00F3, health_response)
    ∷ (0x00FD, server_shutdown)
    ∷ (0x00FF, error)
    ∷ (0x00FE, heartbeat)
    ∷ []

unfoldable pub find : ℕ → List (ℕ × PacketType) → Option PacketType
find n [] = none
find n ((k, t) ∷ l) = if n == k then some t else find n l

-- `PacketType(n)`, which raises `ValueError` for a number that is no member's.
unfoldable pub of_code : ℕ → Option PacketType
unfolding find
of_code n = find n members

-- `PLAINTEXT_PACKET_TYPES`
unfoldable pub is_plaintext : PacketType → Bool
is_plaintext client_hello = true
is_plaintext server_hello = true
is_plaintext connect_request = true
is_plaintext connect_response = true
is_plaintext health_query = true
is_plaintext health_response = true
is_plaintext _ = false
