-- ===== src/Handler/Share/Resolve.antt =====
-- The common start of the handlers of a room's screen: what follows it, on a room that was found, and
-- what an update of the screen does to the table of rooms.
use mathlib.Core.Path.{subst}
use quickonnect.Prelude.{
  ℕ, true, Option, none, some, Text, nat_eq, text_eq, string_eq, ◌==◌, if◌then◌else◌, ◌≡◌, refl,
  sym, ap, arith, ◌⊎◌, inl, inr, Bool-cases, Option-cases,
}
use quickonnect.Prelude.Dict.{get, put, get-put, values}
use quickonnect.Json
use quickonnect.Json.{Json, Fields, str, arr, obj, bool, null}
use quickonnect.Packet
use quickonnect.Packet.{PacketType}
use quickonnect.Screen.{ScreenRelayState}
use quickonnect.Rooms.{get_screen_state, get_room_clients, set_room}
use quickonnect.Handler
use quickonnect.Handler.{
  room_code_required, not_in_room, room_not_found, in_room, strip, stripped, text_field,
  resolve_room, resolve_screen_room, set_screen, is_empty, broadcast, broadcast_others,
}
use quickonnect.Handler.Share.{on_screen}
use quickonnect.Handler.Payload.{stripped-cases}
use quickonnect.World.{World, RoomData, Env, Session, Proc, Done, deliver, ◌>>=◌}
use quickonnect.World.Sends.{bind-some, bind-none, deliver_all-SameState}

-- The four outcomes of looking a room up.
resolve_room-cases :
    (env : Env) (me : Session) (code : Text) (w : World)
    → ((p : Json) × (resolve_room env me code w
          ≡ (some none, deliver env me.conn Packet.error p w)))
      ⊎ ((screen : ScreenRelayState) × (in_room me code w ≡ true)
          × (get_screen_state code w ≡ some screen)
          × (resolve_room env me code w ≡ (some (some (code, screen)), w)))
unfolding resolve_room
resolve_room-cases env me code w = elim (Bool-cases (is_empty code)) [
  | inl empty ↦ inl (Handler.error_payload 400 room_code_required, rw (empty) refl)
  | inr given ↦ elim (Bool-cases (in_room me code w)) [
    | inr outside ↦ inl (Handler.error_payload 403 not_in_room, rw (given, outside) refl)
    | inl inside ↦ elim (Option-cases (get_screen_state code w)) [
      | inl gone ↦ inl (Handler.error_payload 404 room_not_found, rw (given, inside, gone) refl)
      | inr (screen, there) ↦ inr (screen, inside, there, rw (given, inside, there) refl)
    ]
  ]
]

resolve_room-then {κ} :
    (P : World → Type κ) (env : Env) (me : Session) (code : Text)
    (k : Text → ScreenRelayState → Proc Done) (w : World)
    → ((p : Json) → P (deliver env me.conn Packet.error p w))
    → ((screen : ScreenRelayState)
        → in_room me code w ≡ true
        → get_screen_state code w ≡ some screen
        → P (k code screen w).1)
    → P ((resolve_room env me code >>= on_screen k) w).1
resolve_room-then P env me code k w refused found =
    let m = resolve_room env me code in
    elim (resolve_room-cases env me code w) [
      | inl (p, e) ↦ subst (λ r. P r.1) (sym (bind-some m (on_screen k) w _ _ e)) (refused p)
      | inr (screen, inside, there, e) ↦
          subst (λ r. P r.1) (sym (bind-some m (on_screen k) w _ _ e)) (found screen inside there)
    ]

pub resolve_screen_room-then {κ} :
    (P : World → Type κ) (env : Env) (me : Session) (payload : Fields)
    (k : Text → ScreenRelayState → Proc Done) (w : World)
    → ((p : Json) → P (deliver env me.conn Packet.error p w))
    → P w
    → ((code : Text) (screen : ScreenRelayState)
        → in_room me code w ≡ true
        → get_screen_state code w ≡ some screen
        → P (k code screen w).1)
    → P ((resolve_screen_room env me payload >>= on_screen k) w).1
unfolding resolve_screen_room
resolve_screen_room-then P env me payload k w refused same found =
    let read = text_field "room_code" payload in
    let go : Option (Option (Text × ScreenRelayState)) × World → Type κ =
      λ r. P (((λ _. r) >>= on_screen k) w).1 in
    elim (stripped-cases (Json.find "room_code" payload) w) [
      | inl raised ↦ subst go (sym (bind-none read (resolve_room env me) w w raised)) same
      | inr (code, e) ↦
          subst go (sym (bind-some read (resolve_room env me) w w code e))
            (resolve_room-then P env me code k w refused (found code))
    ]

set_screen-there :
    (code : Text) (screen : ScreenRelayState) (rd : RoomData) (w : World)
    → get code w.rooms ≡ some rd
    → (set_screen code screen w).rooms ≡ put code (record rd { screen = screen }) w.rooms
unfolding set_screen set_room
set_screen-there code screen rd w h = rw (h, set_screen, set_room)

-- An update of one room's screen is seen in that room alone.
pub get_screen_state-set_screen :
    (c code : Text) (screen old : ScreenRelayState) (w : World)
    → get_screen_state code w ≡ some old
    → get_screen_state c (set_screen code screen w)
      ≡ (if c == code then some screen else get_screen_state c w)
unfolding get_screen_state
get_screen_state-set_screen c code screen old w there = elim (Option-cases (get code w.rooms)) [
  | inl gone ↦ absurd (ground arith)
  | inr (rd, e) ↦
      let rd' : RoomData = record rd { screen = screen } in
      ground (arith, set_screen-there code screen rd w e, get-put code c rd' w.rooms)
]

pub get_screen_state-broadcast :
    (env : Env) (c code : Text) (t : PacketType) (p : Json) (w : World)
    → get_screen_state c (broadcast env code t p w) ≡ get_screen_state c w
unfolding get_screen_state broadcast
get_screen_state-broadcast env c code t p w =
    let same = deliver_all-SameState env (values (get_room_clients code w)) t p w in
    ap (λ rooms. elim (get c rooms) [ none ↦ none | some rd ↦ some rd.screen ]) same.rooms

pub get_screen_state-deliver :
    (env : Env) (c : Text) (conn : ℕ) (t : PacketType) (p : Json) (w : World)
    → get_screen_state c (deliver env conn t p w) ≡ get_screen_state c w
unfolding get_screen_state deliver
get_screen_state-deliver env c conn t p w = refl
