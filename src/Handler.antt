-- ===== src/Handler.antt =====
-- server/client_handler.py: what the handlers of one authenticated client share: reading a packet's
-- payload, the rooms that the client has joined, and sending.

pub mod Payload
pub mod Share
pub mod Membership
pub mod Media
pub mod Board
pub mod Chat
pub mod Social
pub mod Lifecycle
pub mod Entry
use quickonnect.Prelude.{
  ℕ, Bool, true, false, not, ◌&&◌, ◌||◌, Option, none, some, List, [], ◌∷◌, ◌++◌, map, reverse,
  Text, String, nat_eq, text_eq, ◌==◌, if◌then◌else◌, leb, codes, elem,
}
use quickonnect.Prelude.Dict.{Dict, get, put}
use quickonnect.Json
use quickonnect.Json.{Json, Fields, dict, num, str}
use quickonnect.Packet
use quickonnect.Packet.{PacketType}
use quickonnect.Screen.{ScreenRelayState}
use quickonnect.Rooms.{get_room_clients, get_screen_state, set_room}
use quickonnect.Prelude.Dict.{values}
use quickonnect.World.{
  World, Env, Session, RoomData, Proc, Done, pure, raise, gets, done, modify, ◌>>=◌, ◌>>◌, send,
  deliver_all, without_user,
}

-- `str.isspace` of one character.
unfoldable pub is_space : ℕ → Bool
is_space c =
    (leb 9 c && leb c 13)
    || (leb 28 c && leb c 32)
    || (leb 0x2000 c && leb c 0x200a)
    || elem c (0x85 ∷ 0xa0 ∷ 0x1680 ∷ 0x2028 ∷ 0x2029 ∷ 0x202f ∷ 0x205f ∷ 0x3000 ∷ [])

unfoldable pub drop_spaces : Text → Text
unfolding is_space
drop_spaces [] = []
drop_spaces (c ∷ t) = let rest = drop_spaces t in if is_space c then rest else c ∷ t

-- `str.strip`
unfoldable pub strip : Text → Text
unfolding drop_spaces
strip t = reverse (drop_spaces (reverse (drop_spaces t)))

-- `payload.get(key, "").strip()`, which raises where the value is no string.
unfoldable pub stripped : Option Json → Proc Text
stripped none = pure []
stripped (some (str t)) = pure (strip t)
stripped (some _) = raise

abbrev pub text_field : String → Fields → Proc Text
text_field key payload = stripped (Json.find key payload)

-- `payload.get(key, default)`
abbrev pub field_or : String → Json → Fields → Json
field_or key default payload = Json.get_or key default payload

unfoldable pub is_empty : Text → Bool
is_empty [] = true
is_empty (c ∷ t) = false

-- `self._current_rooms`
unfoldable pub current_rooms : Session → World → List Text
current_rooms me w = elim (get me.conn w.current_rooms) [ none ↦ [] | some l ↦ l ]

unfoldable pub in_room : Session → Text → World → Bool
unfolding current_rooms
in_room me room_code w = elem room_code (current_rooms me w)

unfoldable pub add_room : Session → Text → World → World
unfolding current_rooms
add_room me room_code w =
    if elem room_code (current_rooms me w)
    then w
    else record w { current_rooms = put me.conn (room_code ∷ current_rooms me w) w.current_rooms }

unfoldable pub without : Text → List Text → List Text
without t [] = []
without t (u ∷ l) = let rest = without t l in if t == u then rest else u ∷ rest

unfoldable pub discard_room : Session → Text → World → World
unfolding current_rooms without
discard_room me room_code w = record w {
  current_rooms = put me.conn (without room_code (current_rooms me w)) w.current_rooms;
}

-- `{"code": …, "message": …}`
abbrev pub error_payload : ℕ → Text → Json
error_payload code message = dict (("code", num code) ∷ ("message", str message) ∷ [])

abbrev pub send_error : Env → Session → ℕ → Text → Proc Done
send_error env me code message = send env me Packet.error (error_payload code message)

-- `_broadcast_to_room`, and the loops that do the same in place.
unfoldable pub broadcast : Env → Text → PacketType → Json → World → World
broadcast env room_code packet_type payload w =
    deliver_all env (values (get_room_clients room_code w)) packet_type payload w

unfoldable pub broadcast_others : Env → Session → Text → PacketType → Json → World → World
broadcast_others env me room_code packet_type payload w =
    deliver_all env (without_user me.user_id (get_room_clients room_code w)) packet_type payload w

abbrev pub room_code_required : Text
room_code_required = codes "Room code required"

abbrev pub not_in_room : Text
not_in_room = codes "Not in this room"

abbrev pub room_not_found : Text
room_not_found = codes "Room not found"

-- `_resolve_screen_room`: `none` after an error was sent.
unfoldable pub resolve_room : Env → Session → Text → Proc (Option (Text × ScreenRelayState))
unfolding is_empty in_room
resolve_room env me room_code w =
    if is_empty room_code
    then (send_error env me 400 room_code_required >> pure none) w
    else if not (in_room me room_code w)
    then (send_error env me 403 not_in_room >> pure none) w
    else elim (get_screen_state room_code w) [
      | none ↦ (send_error env me 404 room_not_found >> pure none) w
      | some screen ↦ (some (some (room_code, screen)), w)
    ]

unfoldable pub resolve_screen_room :
    Env → Session → Fields → Proc (Option (Text × ScreenRelayState))
unfolding stripped
resolve_screen_room env me payload = do
  room_code ← text_field "room_code" payload
  resolve_room env me room_code

-- The screen state of a room, as a method left it.
unfoldable pub set_screen : Text → ScreenRelayState → World → World
set_screen room_code screen w = set_room room_code (λ rd. record rd { screen = screen }) w
