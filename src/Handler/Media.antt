-- ===== src/Handler/Media.antt =====
-- server/client_handler.py: the camera and the microphone.
use quickonnect.Prelude.{
  ℕ, Bool, false, not, ◌||◌, Option, none, some, [], ◌∷◌, Text, nat_eq, text_eq, string_eq,
  if◌then◌else◌, codes, ltb, length, ◌*◌,
}
use quickonnect.Json.{Json, Fields, dict, num, str}
use quickonnect.Packet
use quickonnect.Camera
use quickonnect.Mixer
use quickonnect.Stt.{Job}
use quickonnect.Rooms.{get_camera_state, get_audio_mixer, set_room, note}
use quickonnect.Handler
use quickonnect.Handler.{
  text_field, stripped, field_or, is_empty, in_room, broadcast, broadcast_others, send_error,
  not_in_room, room_not_found,
}
use quickonnect.Handler.Share.{absent}
use quickonnect.Handler.Membership.{camera_stop_payload, stop_own_camera}
use quickonnect.World.{World, Env, Session, Proc, Done, modify, ◌>>=◌, deliver, submitted}

abbrev pub max_audio_b64_len : ℕ
max_audio_b64_len = 4096

abbrev pub max_camera_b64_len : ℕ
max_camera_b64_len = 1024 * 1024

abbrev pub camera_start_payload : Text → Session → Json
camera_start_payload room_code me = dict (
    ("room_code", str room_code) ∷ ("user_id", num me.user_id) ∷ ("username", str me.username) ∷ [])

unfoldable pub start_camera : Env → Session → Text → World → World
start_camera env me room_code w =
    if absent me room_code w
    then deliver env me.conn Packet.error (Handler.error_payload 403 not_in_room) w
    else elim (get_camera_state room_code w) [
      | none ↦ deliver env me.conn Packet.error (Handler.error_payload 404 room_not_found) w
      | some camera ↦
          broadcast env room_code Packet.camera_start (camera_start_payload room_code me) (
            set_room room_code
              (λ rd. record rd { camera = (Camera.start_camera me.user_id me.username camera).0 })
              w)
    ]

unfoldable pub handle_camera_start : Env → Session → Fields → Proc Done
unfolding start_camera
handle_camera_start env me payload = do
  room_code ← text_field "room_code" payload
  modify (start_camera env me room_code)

unfoldable pub stop_camera : Env → Session → Text → World → World
stop_camera env me room_code w =
    if absent me room_code w
    then w
    else (let (was_on, w') = stop_own_camera me room_code w in
        if was_on
        then broadcast env room_code Packet.camera_stop (camera_stop_payload room_code me) w'
        else w')

unfoldable pub handle_camera_stop : Env → Session → Fields → Proc Done
unfolding stop_camera
handle_camera_stop env me payload = do
  room_code ← text_field "room_code" payload
  modify (stop_camera env me room_code)

-- A string that is not empty.
unfoldable pub content : Json → Option Text
content (str (c ∷ t)) = some (c ∷ t)
content _ = none

abbrev pub camera_payload : Text → Session → Text → Fields → Json
camera_payload room_code me jpeg_b64 payload = dict (
    ("room_code", str room_code)
    ∷ ("user_id", num me.user_id)
    ∷ ("username", str me.username)
    ∷ ("jpeg_b64", str jpeg_b64)
    ∷ ("width", field_or "width" (num 0) payload)
    ∷ ("height", field_or "height" (num 0) payload)
    ∷ ("seq", field_or "seq" (num 0) payload)
    ∷ [])

abbrev pub camera_frame_too_large : Text
camera_frame_too_large = codes "Camera frame too large"

unfoldable pub is_on : Session → Option Camera.CameraState → Bool
is_on me none = false
is_on me (some camera) = Camera.is_active me.user_id camera

unfoldable pub relay_camera : Env → Session → Fields → Text → World → World
unfolding content is_on
relay_camera env me payload room_code w =
    if absent me room_code w || not (is_on me (get_camera_state room_code w))
    then w
    else elim (content (field_or "jpeg_b64" (str []) payload)) [
      | none ↦ w
      | some jpeg_b64 ↦
          if ltb max_camera_b64_len (length jpeg_b64)
          then deliver env me.conn Packet.error (Handler.error_payload 413 camera_frame_too_large) w
          else broadcast_others env me room_code Packet.camera_relay
              (camera_payload room_code me jpeg_b64 payload) w
    ]

unfoldable pub handle_camera_frame : Env → Session → Fields → Proc Done
handle_camera_frame env me payload = do
  room_code ← text_field "room_code" payload
  modify (relay_camera env me payload room_code)

abbrev pub audio_frame_too_large : Text
audio_frame_too_large = codes "Audio frame too large"

abbrev note_job : Option Job → World → World
note_job none w = w
note_job (some j) w = note (submitted j.user_id j.username j.frames) w

abbrev set_mixer : Text → Mixer.AudioMixerState → World → World
set_mixer room_code mixer w = set_room room_code (λ rd. record rd { audio = mixer }) w

unfoldable pub take_audio : Env → Session → Fields → Text → Mixer.AudioMixerState → World → World
unfolding content
take_audio env me payload room_code mixer w =
    let mixer₁ = Mixer.add_participant me.user_id me.username mixer in
    let w₁ = set_mixer room_code mixer₁ w in
    elim (content (field_or "pcm_b64" (str []) payload)) [
      | none ↦ w₁
      | some pcm_b64 ↦
          if ltb max_audio_b64_len (length pcm_b64)
          then deliver env me.conn Packet.error (Handler.error_payload 413 audio_frame_too_large) w₁
          else (let (mixer₂, job) = Mixer.feed_audio env.decode_base64 me.user_id pcm_b64 mixer₁ in
              note_job job (set_mixer room_code mixer₂ w₁))
    ]

unfoldable pub receive_audio : Env → Session → Fields → Text → World → World
receive_audio env me payload room_code w =
    if absent me room_code w then w else elim (get_audio_mixer room_code w) [
      | none ↦ w
      | some mixer ↦ take_audio env me payload room_code mixer w
    ]

unfoldable pub handle_audio_chunk : Env → Session → Fields → Proc Done
handle_audio_chunk env me payload = do
  room_code ← text_field "room_code" payload
  modify (receive_audio env me payload room_code)
