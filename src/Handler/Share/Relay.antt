-- ===== src/Handler/Share/Relay.antt =====
-- Whom a frame of a shared screen reaches.
use mathlib.Core.Path.{subst}
use quickonnect.Prelude.{
  ℕ, true, false, some, String, [], ◌∷◌, string_eq, Text, nat_eq, text_eq, ◌≡◌, ◌≢◌, refl, arith,
  inl, inr, Bool-cases,
}
use quickonnect.Prelude.Dict.{get, IsDistinct}
use quickonnect.Json
use quickonnect.Json.{Json, Fields, str, num, dict}
use quickonnect.Packet
use quickonnect.Rooms.{get_room_clients, get_screen_state}
use quickonnect.Handler.{in_room, strip, stripped, broadcast_others, is_empty}
use quickonnect.Handler.Share.{absent, is_sharer, relay_frame, relay_payload, handle_screen_frame}
use quickonnect.Handler.Payload.{stripped-step}
use quickonnect.World.{World, Env, Session, Call, sent, deliver_all, without_user}
use quickonnect.World.Sends.{
  Added, no_more, deliver_all-Added, without_user-All, IsLogged, deliver_all-reaches,
}

-- The call hands a frame of the user's own share to another client of that room.
abbrev pub IsRelay : Session → Fields → World → Call → Type 0
IsRelay me payload w c =
    (room_code : Text) × (v : ℕ) × (s : Session) × (in_room me room_code w ≡ true)
    × (is_sharer me (get_screen_state room_code w) ≡ true)
    × (v ≢ me.user_id)
    × (get v (get_room_clients room_code w) ≡ some s)
    × (c ≡ sent s.conn Packet.screen_relay (relay_payload room_code me payload))

relay_frame_private :
    (env : Env) (me : Session) (payload : Fields) (code : Text) (w : World)
    → IsDistinct (get_room_clients code w)
    → Added (IsRelay me payload w) w.log (relay_frame env me payload code w).log
unfolding relay_frame broadcast_others
relay_frame_private env me payload code w distinct = elim (Bool-cases (absent me code w)) [
  | inl out ↦ rw out no_more
  | inr here ↦ elim (Bool-cases (is_sharer me (get_screen_state code w))) [
    | inr other ↦ rw (here, other) no_more
    | inl sharer ↦
        rw (here, sharer)
          (deliver_all-Added env _ Packet.screen_relay (relay_payload code me payload) w
            (without_user-All me.user_id (get_room_clients code w)
              (λ v s n h. (code, v, s, ground arith, sharer, n, h, refl)) distinct)
            no_more)
  ]
]

-- Whatever a frame's packet holds, where no room has a user twice among its clients, the server sends
-- nothing for it but the frame, to other clients of a room that the sender is in and shares the
-- screen of.
pub screen_frame_private :
    (env : Env) (me : Session) (payload : Fields) (w : World)
    → ((code : Text) → IsDistinct (get_room_clients code w))
    → Added (IsRelay me payload w) w.log (handle_screen_frame env me payload w).1.log
unfolding handle_screen_frame
screen_frame_private env me payload w distinct =
    stripped-step (λ v. Added (IsRelay me payload w) w.log v.log) (Json.find "room_code" payload)
      (relay_frame env me payload) w
      (λ code. relay_frame_private env me payload code w (distinct code)) no_more

get_or-some :
    (key : String) (default v : Json) (payload : Fields)
    → Json.find key payload ≡ some v
    → Json.get_or key default payload ≡ v
unfolding Json.get_or
get_or-some key default v payload e = rw (e, Json.get_or) refl

-- The relayed packet holds what came.
relay_payload_lem :
    (room_code : Text) (me : Session) (payload : Fields) (jpeg width height seq : Json)
    → Json.find "jpeg_b64" payload ≡ some jpeg
    → Json.find "width" payload ≡ some width
    → Json.find "height" payload ≡ some height
    → Json.find "seq" payload ≡ some seq
    → relay_payload room_code me payload
      ≡ dict (
          ("room_code", str room_code)
          ∷ ("sharer_user_id", num me.user_id)
          ∷ ("jpeg_b64", jpeg)
          ∷ ("width", width)
          ∷ ("height", height)
          ∷ ("seq", seq)
          ∷ [])
relay_payload_lem room_code me payload jpeg width height seq image wide high number = λ i. dict (
    ("room_code", str room_code)
    ∷ ("sharer_user_id", num me.user_id)
    ∷ ("jpeg_b64", get_or-some "jpeg_b64" (str []) jpeg payload image i)
    ∷ ("width", get_or-some "width" (num 0) width payload wide i)
    ∷ ("height", get_or-some "height" (num 0) height payload high i)
    ∷ ("seq", get_or-some "seq" (num 0) seq payload number i)
    ∷ [])

-- A frame from the sharer of a room, in a packet with an image, a width, a height and a number, reaches
-- every other client of the room with that image, width, height and number, under the code of the
-- room and the id of the sharer.
pub screen_frame_reaches :
    (env : Env) (me : Session) (payload : Fields) (w : World) (code : Text) (v : ℕ) (s : Session)
    (jpeg width height seq : Json)
    → Json.find "room_code" payload ≡ some (str code)
    → Json.find "jpeg_b64" payload ≡ some jpeg
    → Json.find "width" payload ≡ some width
    → Json.find "height" payload ≡ some height
    → Json.find "seq" payload ≡ some seq
    → is_empty (strip code) ≡ false
    → in_room me (strip code) w ≡ true
    → is_sharer me (get_screen_state (strip code) w) ≡ true
    → v ≢ me.user_id
    → get v (get_room_clients (strip code) w) ≡ some s
    → IsLogged
        (sent s.conn Packet.screen_relay (
          dict (
            ("room_code", str (strip code))
            ∷ ("sharer_user_id", num me.user_id)
            ∷ ("jpeg_b64", jpeg)
            ∷ ("width", width)
            ∷ ("height", height)
            ∷ ("seq", seq)
            ∷ [])))
        (handle_screen_frame env me payload w).1.log
unfolding handle_screen_frame stripped relay_frame broadcast_others
screen_frame_reaches env me payload w code v s jpeg width height seq field image wide high number
      nonempty inside sharer n there =
    rw (field, stripped, nonempty, inside, sharer)
      (subst
        (λ p.
          IsLogged (sent s.conn Packet.screen_relay p)
            (relay_all (strip code) (relay_payload (strip code) me payload)).log)
        (relay_payload_lem (strip code) me payload jpeg width height seq image wide high number)
        (deliver_all-reaches env me.user_id v s (get_room_clients (strip code) w)
          Packet.screen_relay (relay_payload (strip code) me payload) w n there))
  where
    relay_all : Text → Json → World
    relay_all room_code p =
        deliver_all env (without_user me.user_id (get_room_clients room_code w)) Packet.screen_relay
          p w
