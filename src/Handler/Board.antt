-- ===== src/Handler/Board.antt =====
-- server/client_handler.py: drawing events and the export of the whiteboard.
pub mod Draws
use quickonnect.Prelude.{
  ℕ, Bool, true, false, not, ◌&&◌, ◌||◌, Option, none, some, List, [], ◌∷◌, ◌++◌, map, Text, String,
  nat_eq, text_eq, string_eq, ◌==◌, if◌then◌else◌, codes, elem,
}
use quickonnect.Json
use quickonnect.Json.{Json, Fields, dict, num, str, obj, arr, items, null}
use quickonnect.Packet
use quickonnect.Whiteboard
use quickonnect.Whiteboard.{WhiteboardState}
use quickonnect.Rooms.{get_whiteboard_state, get_room, set_room, note}
use quickonnect.Handler
use quickonnect.Handler.{text_field, stripped, field_or, broadcast, send_error}
use quickonnect.Handler.Share.{absent}
use quickonnect.Handler.Membership.{event_json, or_null_str}
use quickonnect.World.{
  World, Env, Session, Room, Proc, Done, pure, raise, gets, done, modify, ◌>>=◌, ◌>>◌, send,
  deliver, insert_event, rendered,
}

abbrev pub event_types : List Text
event_types =
    codes "pen" ∷ codes "eraser" ∷ codes "rect" ∷ codes "oval" ∷ codes "text" ∷ codes "undo" ∷ []

-- `event_type not in {…}`, negated: `none` raises, since the value has no hash.
unfoldable pub known_type : Json → Option (Option Text)
known_type (str t) = some (if elem t event_types then some t else none)
known_type (arr l) = none
known_type (obj l) = none
known_type _ = some none

-- `isinstance(payload, dict)`
unfoldable pub as_dict : Json → Option Fields
as_dict (obj l) = some l
as_dict _ = none

-- The id that came with the event: a string, or nothing. Another JSON value is not modelled, and the
-- model stops at it.
unfoldable pub event_id : Json → Option (Option Text)
event_id null = some none
event_id (str t) = some (some t)
event_id _ = none

abbrev pub invalid_type : Text
invalid_type = codes "Invalid whiteboard event type"

abbrev pub invalid_payload : Text
invalid_payload = codes "Invalid whiteboard payload"

abbrev pub ack_payload : Text → Option Text → ℕ → Json
ack_payload room_code client_event_id seq = dict (
    ("room_code", str room_code)
    ∷ ("client_event_id", or_null_str client_event_id)
    ∷ ("seq_num", num seq)
    ∷ [])

-- For an undo, the events that every client shall now show.
abbrev active_entry : Text → WhiteboardState → List (String × Json)
active_entry event_type wb =
    if event_type == Whiteboard.undo
    then ("active_events", arr (items (map event_json (Whiteboard.get_active_events none wb)))) ∷ []
    else []

abbrev pub draw_payload : Session → Text → ℕ → Text → Fields → Option Text → WhiteboardState → Json
draw_payload me room_code seq event_type payload client_event_id wb = dict (
    ("room_code", str room_code)
    ∷ ("seq_num", num seq)
    ∷ ("user_id", num me.user_id)
    ∷ ("username", str me.username)
    ∷ ("event_type", str event_type)
    ∷ ("payload", obj payload)
    ∷ ("client_event_id", or_null_str client_event_id)
    ∷ active_entry event_type wb)

-- The write to the database, which `add_event` makes for an event that is new.
abbrev pub note_event : Bool → ℕ → ℕ → ℕ → Text → Fields → World → World
note_event true room_id user_id seq event_type payload w = w
note_event false room_id user_id seq event_type payload w =
    note (insert_event room_id user_id seq event_type payload) w

abbrev pub room_id_of : Option Room → ℕ
room_id_of none = 0
room_id_of (some room) = room.id

-- An accepted event: it is stored, acknowledged, and told to all members.
unfoldable pub draw :
    Env → Session → Text → WhiteboardState → Text → Fields → Option Text → World → World
draw env me room_code wb event_type payload client_event_id w =
    let (wb', seq) = Whiteboard.add_event me.user_id event_type payload client_event_id wb in
    let w₁ =
      note_event (Whiteboard.is_processed client_event_id wb) (room_id_of (get_room room_code w))
        me.user_id seq event_type payload
        (set_room room_code (λ rd. record rd { whiteboard = wb' }) w) in
    let w₂ = deliver env me.conn Packet.draw_ack (ack_payload room_code client_event_id seq) w₁ in
    broadcast env room_code Packet.draw_broadcast
      (draw_payload me room_code seq event_type payload client_event_id wb') w₂

unfoldable pub check_event : Env → Session → Text → WhiteboardState → Fields → Proc Done
unfolding known_type as_dict event_id
check_event env me room_code wb packet = elim (known_type (field_or "event_type" null packet)) [
  | none ↦ raise
  | some known ↦ elim known [
    | none ↦ send_error env me 400 invalid_type
    | some event_type ↦ elim (as_dict (field_or "payload" null packet)) [
      | none ↦ send_error env me 400 invalid_payload
      | some payload ↦ elim (event_id (field_or "client_event_id" null packet)) [
        | none ↦ raise
        | some client_event_id ↦
            modify (draw env me room_code wb event_type payload client_event_id)
      ]
    ]
  ]
]

-- The room's whiteboard, where the client is in the room.
unfoldable pub board_of : Session → Text → World → Option WhiteboardState
board_of me room_code w = if absent me room_code w then none else get_whiteboard_state room_code w

unfoldable pub handle_draw_event : Env → Session → Fields → Proc Done
unfolding board_of check_event
handle_draw_event env me packet = do
  room_code ← text_field "room_code" packet
  board ← gets (board_of me room_code)
  elim board [ none ↦ done | some wb ↦ check_event env me room_code wb packet ]

abbrev pub file_payload : Env → Text → List ℕ → Json
file_payload env room_code png_bytes = dict (
    ("room_code", str room_code)
    ∷ ("file_type", str (codes "whiteboard_export"))
    ∷ ("file_data", str (env.encode_base64 png_bytes))
    ∷ ("file_name", str (codes "whiteboard_" ++ (room_code ++ codes ".png")))
    ∷ [])

abbrev pub failed_to_render : Text
failed_to_render = codes "Failed to render whiteboard"

unfoldable pub export : Env → Session → Text → World → World
unfolding board_of
export env me room_code w = elim (board_of me room_code w) [
  | none ↦ w
  | some wb ↦ elim (env.render_answer w.log room_code) [
    | none ↦
        deliver env me.conn Packet.error (Handler.error_payload 500 failed_to_render)
          (note (rendered room_code) w)
    | some png_bytes ↦
        deliver env me.conn Packet.file_transfer (file_payload env room_code png_bytes)
          (note (rendered room_code) w)
  ]
]

unfoldable pub handle_export_request : Env → Session → Fields → Proc Done
unfolding export
handle_export_request env me payload = do
  room_code ← text_field "room_code" payload
  modify (export env me room_code)
