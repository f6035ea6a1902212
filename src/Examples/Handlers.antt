-- ===== src/Examples/Handlers.antt =====
-- Packets of the two clients of the room, and of one who joins, handled.
use mathlib.Core.List.{reverse_aux}
use mathlib.Core.Path.{subst}
use quickonnect.Prelude.{
  string_eq, ℕ, true, false, ◌&&◌, some, none, [], ◌∷◌, Text, codes, nat_eq, text_eq, text_beq,
  ◌==◌, ◌≡◌, refl, sym, arith, Bool-cases, inl, inr, if◌then◌else◌,
}
use quickonnect.Prelude.Dict.{get, IsDistinct}
use quickonnect.Json
use quickonnect.Json.{Json, Fields, num, dict}
use quickonnect.Packet
use quickonnect.Screen.{sharer_user_id}
use quickonnect.Whiteboard
use quickonnect.Rooms.{get_room_clients, get_screen_state, is_dm_room}
use quickonnect.Rooms.Maps.{member}
use quickonnect.Handler
use quickonnect.Handler.{strip, in_room}
use quickonnect.Handler.Share.{
  relay_payload, handle_screen_frame, handle_remote_event, handle_remote_grant,
}
use quickonnect.Handler.Share
use quickonnect.Handler.Share.Relay.{IsRelay, screen_frame_private, screen_frame_reaches}
use quickonnect.Handler.Share.Control.{IsControl, remote_event_private}
use quickonnect.Handler.Share.Grants.{remote_grant_only_sharer}
use quickonnect.Handler.Membership.{leave, join, redirect_payload}
use quickonnect.Handler.Membership.Departure.{leave_members}
use quickonnect.Handler.Membership.Redirect.{join_redirect}
use quickonnect.Handler.Board.{draw, ack_payload, draw_payload}
use quickonnect.Handler.Board.Draws.{draw_log}
use quickonnect.World.{sent, insert_event, deliver, redis_get, redis_hget}
use quickonnect.World.Sends.{Added, IsLogged, sends}
use quickonnect.Examples.Members.{ann, bob, cy, lobby, lobby_data, server, env}

-- A packet that names the room.
abbrev packet : Fields
packet = Json.fields (("room_code", Json.str lobby) ∷ [])

clients-there :
    (code : Text) → (code == lobby) ≡ true → get_room_clients code server ≡ lobby_data.clients
unfolding get_room_clients get
clients-there code here = ground arith

clients-gone : (code : Text) → (code == lobby) ≡ false → get_room_clients code server ≡ []
unfolding get_room_clients get
clients-gone code other = ground arith

clients-IsDistinct : (code : Text) → IsDistinct (get_room_clients code server)
unfolding get
clients-IsDistinct code = elim (Bool-cases (code == lobby)) [
  | inl here ↦ subst IsDistinct (sym (clients-there code here)) (refl, (refl, tt))
  | inr other ↦ subst IsDistinct (sym (clients-gone code other)) tt
]

frame_private_example :
    Added (IsRelay ann packet server) server.log (handle_screen_frame env ann packet server).1.log
frame_private_example = screen_frame_private env ann packet server clients-IsDistinct

abbrev image : Json
image = Json.str (codes "/9j/4AAQ")

-- A packet with a frame.
abbrev frame : Fields
frame = Json.fields (
    ("room_code", Json.str lobby)
    ∷ ("jpeg_b64", image)
    ∷ ("width", num 640)
    ∷ ("height", num 480)
    ∷ ("seq", num 12)
    ∷ [])

frame_reaches_example :
    IsLogged
      (sent 2 Packet.screen_relay (
        dict (
          ("room_code", Json.str (strip lobby))
          ∷ ("sharer_user_id", num 1)
          ∷ ("jpeg_b64", image)
          ∷ ("width", num 640)
          ∷ ("height", num 480)
          ∷ ("seq", num 12)
          ∷ [])))
      (handle_screen_frame env ann frame server).1.log
unfolding Json.find Handler.is_empty strip Handler.drop_spaces Handler.is_space in_room
    Handler.current_rooms get text_beq Share.is_sharer get_screen_state get_room_clients
    sharer_user_id
frame_reaches_example =
    screen_frame_reaches env ann frame server lobby 2 bob image (num 640) (num 480) (num 12) refl
      refl refl refl refl refl refl refl (ground arith) refl

event_private_example :
    Added (IsControl bob packet server) server.log (handle_remote_event env bob packet server).1.log
event_private_example = remote_event_private env bob packet server

grant_only_sharer_example :
    get_screen_state lobby (handle_remote_grant env bob packet server).1
    ≡ get_screen_state lobby server
unfolding Share.is_sharer get_screen_state get text_beq sharer_user_id
grant_only_sharer_example = remote_grant_only_sharer env bob packet server lobby refl

leave_request_example :
    member lobby 1 (leave env bob lobby server).rooms
    ≡ (if lobby == lobby && ◌==◌ {A = ℕ} 1 bob.user_id then none else member lobby 1 server.rooms)
leave_request_example = leave_members env bob lobby server lobby 1

redirect_example : join env cy lobby server ≡ (
  some tt,
  deliver env 3 Packet.error
      (redirect_payload lobby (some (codes "10.0.0.2", 9002)))
      (record server { log = redis_hget (codes "s2") ∷ redis_get lobby ∷ [] }),
)
unfolding is_dm_room
redirect_example = join_redirect env cy lobby (codes "s2") server refl refl (ground arith)

draw_example :
    (draw env ann lobby (Whiteboard.blank true) (codes "pen") Json.end none server).log
    ≡ reverse_aux
        (sends (ann ∷ bob ∷ []) Packet.draw_broadcast (
          draw_payload ann lobby 1
            (codes "pen")
            Json.end
            none
            (Whiteboard.add_event 1 (codes "pen") Json.end none (Whiteboard.blank true)).0))
        (sent 1 Packet.draw_ack (ack_payload lobby none 1)
          ∷ insert_event 7 1 1 (codes "pen") Json.end
          ∷ [])
unfolding get text_beq Whiteboard.is_processed
draw_example =
    draw_log env ann lobby (Whiteboard.blank true) (codes "pen") Json.end none server lobby_data
      refl refl
