-- ===== src/Handler/Board/Draws.antt =====
-- What an accepted drawing event does on the server, and in which order it is told.
use mathlib.Core.List.{reverse_aux}
use mathlib.Core.Path.{subst}
use quickonnect.Prelude.{
  ℕ, Bool, false, Option, some, ◌∷◌, Text, nat_eq, text_eq, ◌+◌, ◌≡◌, ap, ◌∙◌, arith, text_beq_iff,
}
use quickonnect.Prelude.Dict.{get, put, values, get-put}
use quickonnect.Json.{Json, Fields}
use quickonnect.Packet
use quickonnect.Whiteboard
use quickonnect.Whiteboard.{WhiteboardState}
use quickonnect.Whiteboard.Retry.{add_event-new}
use quickonnect.Rooms.{get_room_clients, get_room, set_room}
use quickonnect.Handler.{broadcast}
use quickonnect.Handler.Board.{draw, note_event, room_id_of, ack_payload, draw_payload}
use quickonnect.World.{World, Room, RoomData, Env, Session, sent, insert_event, deliver}
use quickonnect.World.Sends.{sends, log-deliver_all}

-- The room, as the event leaves it.
abbrev with_board : WhiteboardState → RoomData → RoomData
with_board wb rd = record rd { whiteboard = wb }

set_board :
    (code : Text) (wb : WhiteboardState) (w : World) (rd : RoomData)
    → get code w.rooms ≡ some rd
    → set_room code (with_board wb) w ≡ record w { rooms = put code (with_board wb rd) w.rooms }
unfolding set_room
set_board code wb w rd there = rw (there, set_room)

clients-set_board :
    (code : Text) (wb : WhiteboardState) (w : World) (rd : RoomData)
    → get code w.rooms ≡ some rd
    → get_room_clients code (set_room code (with_board wb) w) ≡ rd.clients
unfolding get_room_clients
clients-set_board code wb w rd there = ground (
  arith,
  ap (get_room_clients code) (set_board code wb w rd there),
  get-put code code (with_board wb rd) w.rooms,
  text_beq_iff code code,
)

get_room-there :
    (code : Text) (w : World) (rd : RoomData)
    → get code w.rooms ≡ some rd
    → get_room code w ≡ some rd.room
unfolding get_room
get_room-there code w rd there = rw (there, get_room)

-- The three steps that follow the store, in their order.
tell_log :
    (env : Env) (me : Session) (code : Text) (rd : RoomData) (t : Text) (p : Fields)
    (ack message : Json) (seq : ℕ) (old : Bool) (room : Option Room) (w w' : World)
    → old ≡ false
    → room ≡ some rd.room
    → w'.log ≡ w.log
    → get_room_clients code w' ≡ rd.clients
    → (broadcast env code Packet.draw_broadcast message (
        deliver env me.conn Packet.draw_ack ack
          (note_event old (room_id_of room) me.user_id seq t p w'))).log
      ≡ reverse_aux
          (sends (values rd.clients) Packet.draw_broadcast message)
          (sent me.conn Packet.draw_ack ack ∷ insert_event rd.room.id me.user_id seq t p ∷ w.log)
unfolding broadcast deliver get_room_clients
tell_log env me code rd t p ack message seq old room w w' fresh there logged clients =
    rw (fresh, there)
      (let w₁ =
          deliver env me.conn Packet.draw_ack ack
            (note_event false rd.room.id me.user_id seq t p w') in
        log-deliver_all env (values (get_room_clients code w₁)) Packet.draw_broadcast message w₁
        ∙ (ap (λ d. reverse_aux (sends (values d) Packet.draw_broadcast message) w₁.log) clients
            ∙ ap
                (λ log. reverse_aux (sends (values rd.clients) Packet.draw_broadcast message) (
                  sent me.conn Packet.draw_ack ack
                  ∷ insert_event rd.room.id me.user_id seq t p
                  ∷ log))
                logged))

-- In a room that is there, an event whose client id was not seen before is stored once in the
-- database, then acknowledged to its sender, and then sent to every client of the room, the sender
-- included, all under the next number.
pub draw_log :
    (env : Env) (me : Session) (code : Text) (wb : WhiteboardState) (t : Text) (p : Fields)
    (id : Option Text) (w : World) (rd : RoomData)
    → get code w.rooms ≡ some rd
    → Whiteboard.is_processed id wb ≡ false
    → (draw env me code wb t p id w).log
      ≡ reverse_aux
          (sends (values rd.clients) Packet.draw_broadcast (
            draw_payload me code
              (wb.last_seq + 1)
              t
              p
              id
              (Whiteboard.add_event me.user_id t p id wb).0))
          (sent me.conn Packet.draw_ack (ack_payload code id (wb.last_seq + 1))
            ∷ insert_event rd.room.id me.user_id (wb.last_seq + 1) t p
            ∷ w.log)
unfolding draw
draw_log env me code wb t p id w rd there fresh =
    let wb' = (Whiteboard.add_event me.user_id t p id wb).0 in
    let seq = (Whiteboard.add_event me.user_id t p id wb).1 in
    let w' = set_room code (with_board wb') w in
    let message = draw_payload me code seq t p id wb' in
    let number : seq ≡ wb.last_seq + 1 = ap (λ r. r.1) (add_event-new me.user_id t p id wb fresh) in
    subst
      (λ n.
        (draw env me code wb t p id w).log
        ≡ reverse_aux
            (sends (values rd.clients) Packet.draw_broadcast (draw_payload me code n t p id wb'))
            (sent me.conn Packet.draw_ack (ack_payload code id n)
              ∷ insert_event rd.room.id me.user_id n t p
              ∷ w.log))
      number
      (tell_log env me code rd t p (ack_payload code id seq) message seq
        (Whiteboard.is_processed id wb) (get_room code w) w w' fresh
        (get_room-there code w rd there) (ap (λ v. v.log) (set_board code wb' w rd there))
        (clients-set_board code wb' w rd there))
