-- ===== src/Handler/Share.antt =====
-- server/client_handler.py: screen sharing and remote control.
pub mod Resolve
pub mod Grants
pub mod Relay
pub mod Control
use quickonnect.Prelude.{
  ℕ, Bool, true, false, not, ◌&&◌, ◌||◌, Option, none, some, List, [], ◌∷◌, Text, String, nat_eq,
  text_eq, string_eq, ◌==◌, if◌then◌else◌, codes, ltb,
}
use quickonnect.Prelude.Dict.{get}
use quickonnect.Prelude.Int.{ℤ, pos, negsuc}
use quickonnect.Json
use quickonnect.Json.{Json, Fields, dict, num, str, bool, null, obj, arr}
use quickonnect.Packet
use quickonnect.Screen
use quickonnect.Screen.{ScreenRelayState, ShareInfo}
use quickonnect.Rooms.{get_room_clients, get_screen_state}
use quickonnect.Handler.{
  text_field, stripped, field_or, is_empty, in_room, resolve_screen_room, set_screen, broadcast,
  broadcast_others, send_error,
}
use quickonnect.World.{
  World, Env, Session, Proc, Done, pure, raise, gets, done, modify, ◌>>=◌, ◌>>◌, send, deliver,
}

abbrev pub text_or : Option Text → Text → Text
text_or none d = d
text_or (some t) d = t

-- The method of a room's screen state that changes it, and the rest of the handler on its result.
abbrev pub update_screen {ℓ} :
    {A : Type ℓ} → Text → ScreenRelayState × A → (A → Proc Done) → Proc Done
update_screen room_code (screen, a) rest = modify (set_screen room_code screen) >> rest a

abbrev pub start_payload : Text → Session → Json
start_payload room_code me = dict (
    ("room_code", str room_code)
    ∷ ("sharer_user_id", num me.user_id)
    ∷ ("sharer_username", str me.username)
    ∷ [])

abbrev pub stop_payload : Text → ℕ → Json
stop_payload room_code user_id =
    dict (("room_code", str room_code) ∷ ("sharer_user_id", num user_id) ∷ [])

abbrev pub cannot_start : Text
cannot_start = codes "Cannot start share"

abbrev pub started : Env → Session → Text → Screen.Outcome → Proc Done
started env me room_code (true, error) =
    modify (broadcast env room_code Packet.screen_start (start_payload room_code me))
started env me room_code (false, error) = send_error env me 409 (text_or error cannot_start)

-- What a handler does once its room is found.
abbrev pub on_screen :
    (Text → ScreenRelayState → Proc Done) → Option (Text × ScreenRelayState) → Proc Done
on_screen k none = done
on_screen k (some (code, screen)) = k code screen

abbrev pub start_on : Env → Session → Text → ScreenRelayState → Proc Done
start_on env me room_code screen =
    update_screen room_code (Screen.start_share me.user_id me.username screen)
      (started env me room_code)

unfoldable pub handle_screen_start : Env → Session → Fields → Proc Done
handle_screen_start env me payload =
    resolve_screen_room env me payload >>= on_screen (start_on env me)

abbrev pub stopped : Env → Session → Text → Bool → Proc Done
stopped env me room_code true =
    modify (broadcast env room_code Packet.screen_stop (stop_payload room_code me.user_id))
stopped env me room_code false = done

abbrev pub stop_on : Env → Session → Text → ScreenRelayState → Proc Done
stop_on env me room_code screen =
    update_screen room_code (Screen.stop_share me.user_id screen) (stopped env me room_code)

unfoldable pub handle_screen_stop : Env → Session → Fields → Proc Done
handle_screen_stop env me payload =
    resolve_screen_room env me payload >>= on_screen (stop_on env me)

abbrev pub relay_payload : Text → Session → Fields → Json
relay_payload room_code me payload = dict (
    ("room_code", str room_code)
    ∷ ("sharer_user_id", num me.user_id)
    ∷ ("jpeg_b64", field_or "jpeg_b64" (str []) payload)
    ∷ ("width", field_or "width" (num 0) payload)
    ∷ ("height", field_or "height" (num 0) payload)
    ∷ ("seq", field_or "seq" (num 0) payload)
    ∷ [])

-- `screen is None or screen.sharer_user_id() != self.user_id`, negated.
unfoldable pub is_sharer : Session → Option ScreenRelayState → Bool
is_sharer me none = false
is_sharer me (some screen) = elim (Screen.sharer_user_id screen) [
  | none ↦ false
  | some u ↦ u == me.user_id
]

abbrev pub absent : Session → Text → World → Bool
absent me room_code w = is_empty room_code || not (in_room me room_code w)

unfoldable pub relay_frame : Env → Session → Fields → Text → World → World
unfolding is_sharer
relay_frame env me payload room_code w =
    if absent me room_code w
    then w
    else if not (is_sharer me (get_screen_state room_code w))
    then w
    else broadcast_others env me room_code Packet.screen_relay (relay_payload room_code me payload)
        w

unfoldable pub handle_screen_frame : Env → Session → Fields → Proc Done
handle_screen_frame env me payload = do
  room_code ← text_field "room_code" payload
  modify (relay_frame env me payload room_code)

abbrev pub request_payload : Text → Session → Json
request_payload room_code me = dict (
    ("room_code", str room_code)
    ∷ ("requester_user_id", num me.user_id)
    ∷ ("requester_username", str me.username)
    ∷ [])

abbrev pub no_active_share : Text
no_active_share = codes "No active screen share"

abbrev pub you_are_sharer : Text
you_are_sharer = codes "You are the sharer"

abbrev pub sharer_gone : Text
sharer_gone = codes "Sharer is no longer connected"

unfoldable pub ask_sharer : Env → Session → Text → ShareInfo → Proc Done
ask_sharer env me room_code info w =
    if info.sharer_user_id == me.user_id
    then send_error env me 400 you_are_sharer w
    else elim (get info.sharer_user_id (get_room_clients room_code w)) [
      | none ↦ send_error env me 410 sharer_gone w
      | some sharer ↦ send env sharer Packet.remote_request (request_payload room_code me) w
    ]

abbrev pub request_on : Env → Session → Text → ScreenRelayState → Proc Done
request_on env me room_code screen = elim (Screen.get_state screen) [
  | none ↦ send_error env me 409 no_active_share
  | some info ↦ ask_sharer env me room_code info
]

unfoldable pub handle_remote_request : Env → Session → Fields → Proc Done
unfolding ask_sharer
handle_remote_request env me payload =
    resolve_screen_room env me payload >>= on_screen (request_on env me)

-- A JSON value as a key of the dict of clients: `none` raises, since the value has no hash, and a
-- value that equals no user id is `some none`. A float equals the number that it is.
unfoldable pub as_key : Env → Json → Option (Option ℕ)
as_key env (arr l) = none
as_key env (obj l) = none
as_key env (Json.int (pos n)) = some (some n)
as_key env (Json.float t) = some (env.float_id t)
as_key env (bool true) = some (some 1)
as_key env (bool false) = some (some 0)
as_key env _ = some none

abbrev pub only_sharer_grants : Text
only_sharer_grants = codes "Only the active sharer can grant remote control"

abbrev pub target_gone : Text
target_gone = codes "Target user is no longer in this room"

abbrev pub failed_to_grant : Text
failed_to_grant = codes "Failed to grant"

abbrev pub failed_to_update : Text
failed_to_update = codes "Failed to update"

-- The payload of `REMOTE_GRANT` by which a grant is told, and the one that tells of none.
abbrev pub grant_payload : Text → Json → Text → ℕ → Json
grant_payload room_code target name sharer = dict (
    ("room_code", str room_code)
    ∷ ("granted", bool true)
    ∷ ("target_user_id", target)
    ∷ ("target_username", str name)
    ∷ ("sharer_user_id", num sharer)
    ∷ [])

abbrev pub revoke_payload : Text → ℕ → Json
revoke_payload room_code sharer = dict (
    ("room_code", str room_code)
    ∷ ("granted", bool false)
    ∷ ("target_user_id", null)
    ∷ ("target_username", null)
    ∷ ("sharer_user_id", num sharer)
    ∷ [])

abbrev pub told : Env → Session → Text → Json → Text → Screen.Outcome → Proc Done
told env me room_code payload failure (true, error) =
    modify (broadcast env room_code Packet.remote_grant payload)
told env me room_code payload failure (false, error) = send_error env me 500 (text_or error failure)

-- The target of a grant, among the clients of the room.
unfoldable pub find_target : Env → Text → Json → Proc (Option (ℕ × Session))
find_target env room_code target w = elim (as_key env target) [
  | none ↦ (none, w)
  | some key ↦ elim key [
    | none ↦ (some none, w)
    | some u ↦ elim (get u (get_room_clients room_code w)) [
      | none ↦ (some none, w)
      | some s ↦ (some (some (u, s)), w)
    ]
  ]
]

abbrev pub grant_to :
    Env → Session → Text → ScreenRelayState → Json → Option (ℕ × Session) → Proc Done
grant_to env me room_code screen target none = send_error env me 410 target_gone
grant_to env me room_code screen target (some (u, s)) =
    update_screen room_code (Screen.set_controller me.user_id (some u) (some s.username) screen)
      (told env me room_code (grant_payload room_code target s.username me.user_id) failed_to_grant)

unfoldable pub grant : Env → Session → Text → ScreenRelayState → Json → Proc Done
grant env me room_code screen target =
    find_target env room_code target >>= grant_to env me room_code screen target

unfoldable pub revoke : Env → Session → Text → ScreenRelayState → Proc Done
revoke env me room_code screen =
    update_screen room_code (Screen.set_controller me.user_id none none screen)
      (told env me room_code (revoke_payload room_code me.user_id) failed_to_update)

abbrev pub shares : Session → ScreenRelayState → Bool
shares me screen = is_sharer me (some screen)

abbrev pub grant_on : Env → Session → Fields → Text → ScreenRelayState → Proc Done
grant_on env me payload room_code screen =
    if not (shares me screen)
    then send_error env me 403 only_sharer_grants
    else if Json.truthy (field_or "granted" (bool false) payload)
    then grant env me room_code screen (field_or "target_user_id" null payload)
    else revoke env me room_code screen

unfoldable pub handle_remote_grant : Env → Session → Fields → Proc Done
unfolding grant revoke
handle_remote_grant env me payload =
    resolve_screen_room env me payload >>= on_screen (grant_on env me payload)

-- The share whose controller the client is.
unfoldable pub controlled : Session → Option ScreenRelayState → Option ShareInfo
controlled me none = none
controlled me (some screen) = elim (Screen.get_state screen) [
  | none ↦ none
  | some info ↦ if Screen.controls info me.user_id then some info else none
]

-- The payload as it came, with the controller's id.
abbrev pub event_payload : Session → Fields → Json
event_payload me payload = obj (Json.set_field "controller_user_id" (num me.user_id) payload)

unfoldable pub forward_event : Env → Session → Fields → Text → World → World
unfolding controlled
forward_event env me payload room_code w =
    if absent me room_code w then w else elim (controlled me (get_screen_state room_code w)) [
      | none ↦ w
      | some info ↦ elim (get info.sharer_user_id (get_room_clients room_code w)) [
        | none ↦ w
        | some sharer ↦ deliver env sharer.conn Packet.remote_event (event_payload me payload) w
      ]
    ]

unfoldable pub handle_remote_event : Env → Session → Fields → Proc Done
unfolding forward_event
handle_remote_event env me payload = do
  room_code ← text_field "room_code" payload
  modify (forward_event env me payload room_code)
