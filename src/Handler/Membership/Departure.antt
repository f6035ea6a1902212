-- ===== src/Handler/Membership/Departure.antt =====
-- What is left of a user in a room, once the user has left it.
use quickonnect.Prelude.{
  ℕ, Bool, true, false, ◌&&◌, none, List, [], ◌∷◌, Text, nat_eq, text_eq, ◌==◌, if◌then◌else◌, ◌≡◌,
  refl, ap, ◌∙◌, arith, inl, inr, Bool-cases, Option-cases, text_beq_iff,
}
use quickonnect.Prelude.Dict.{get}
use quickonnect.Json.{Json}
use quickonnect.Packet
use quickonnect.Packet.{PacketType}
use quickonnect.Screen
use quickonnect.Camera
use quickonnect.Handler.Share.{stop_payload, revoke_payload}
use quickonnect.Rooms.{set_room, get_screen_state, get_camera_state, leave_room}
use quickonnect.Rooms.Maps.{member, member-put, member-some}
use quickonnect.Rooms.Leaving.{leave_room_members}
use quickonnect.Handler.{set_screen, broadcast_others, discard_room}
use quickonnect.Handler.Membership.{leave, surrender_screen, stop_own_camera, tell_remaining}
use quickonnect.World.{World, RoomData, Env, Session, deliver}
use quickonnect.World.Sends.{deliver_all-SameState}

-- A change to one of a room's parts leaves the members as they are.
pub member-set_room :
    (f : RoomData → RoomData) (code c : Text) (v : ℕ) (w : World)
    → ((rd : RoomData) → (f rd).clients ≡ rd.clients)
    → member c v (set_room code f w).rooms ≡ member c v w.rooms
unfolding set_room
member-set_room f code c v w keeps = elim (Option-cases (get code w.rooms)) [
  | inl gone ↦ rw (gone, set_room)
  | inr (rd, there) ↦
      rw (there, set_room)
        (ground (
          arith,
          keeps rd,
          member-put c code v (f rd) w.rooms,
          member-some code v rd w.rooms there,
          text_beq_iff c code,
        ))
]

pub member-broadcast_others :
    (env : Env) (me : Session) (code c : Text) (v : ℕ) (t : PacketType) (p : Json) (w : World)
    → member c v (broadcast_others env me code t p w).rooms ≡ member c v w.rooms
unfolding broadcast_others
member-broadcast_others env me code c v t p w =
    ap (member c v) (deliver_all-SameState env _ t p w).rooms

pub member-set_screen :
    (code c : Text) (screen : Screen.ScreenRelayState) (v : ℕ) (w : World)
    → member c v (set_screen code screen w).rooms ≡ member c v w.rooms
unfolding set_screen
member-set_screen code c screen v w =
    member-set_room (λ rd. record rd { screen = screen }) code c v w (λ rd. refl)

surrender_screen_members :
    (env : Env) (me : Session) (code c : Text) (v : ℕ) (w : World)
    → member c v (surrender_screen env me code w).rooms ≡ member c v w.rooms
unfolding surrender_screen
surrender_screen_members env me code c v w = elim (Option-cases (get_screen_state code w)) [
  | inl gone ↦ rw (gone, surrender_screen) refl
  | inr (screen, there) ↦
      let share = Screen.stop_if_sharer me.user_id screen in
      let control = Screen.clear_controller_if me.user_id screen in
      elim (Bool-cases share.1) [
        | inl shared ↦
            rw (there, shared, surrender_screen)
              (member-broadcast_others env me code c v Packet.screen_stop
                  (stop_payload code me.user_id) (set_screen code share.0 w)
                ∙ member-set_screen code c share.0 v w)
        | inr other ↦ elim (Bool-cases control.1) [
          | inr free ↦ rw (there, other, free, surrender_screen) refl
          | inl controlled ↦ elim (Option-cases (Screen.sharer_user_id control.0)) [
            | inl none_left ↦ rw (there, other, controlled, none_left, surrender_screen) refl
            | inr (sharer, is_sharer) ↦
                rw (there, other, controlled, is_sharer, surrender_screen)
                  (member-broadcast_others env me code c v Packet.remote_grant
                      (revoke_payload code sharer) (set_screen code control.0 w)
                    ∙ member-set_screen code c control.0 v w)
          ]
        ]
      ]
]

pub stop_own_camera_members :
    (me : Session) (code c : Text) (v : ℕ) (w : World)
    → member c v (stop_own_camera me code w).1.rooms ≡ member c v w.rooms
unfolding stop_own_camera
stop_own_camera_members me code c v w = elim (Option-cases (get_camera_state code w)) [
  | inl gone ↦ rw (gone, stop_own_camera) refl
  | inr (camera, there) ↦
      let stopped = (Camera.stop_camera me.user_id camera).0 in
      rw (there, stop_own_camera)
        (member-set_room (λ rd. record rd { camera = stopped }) code c v w (λ rd. refl))
]

tell_remaining_rooms :
    (env : Env) (me : Session) (code : Text) (stopped : Bool) (l : List Session) (w : World)
    → (tell_remaining env me code stopped l w).rooms ≡ w.rooms
unfolding tell_remaining deliver
tell_remaining_rooms env me code stopped [] w = refl
tell_remaining_rooms env me code true (s ∷ l) w = tell_remaining_rooms env me code true l _
tell_remaining_rooms env me code false (s ∷ l) w = tell_remaining_rooms env me code false l _

-- After a user has left a room by request the user is not in it; every other membership, in this room
-- and in all others, is as before.
pub leave_members :
    (env : Env) (me : Session) (code : Text) (w : World) (c : Text) (v : ℕ)
    → member c v (leave env me code w).rooms
      ≡ (if c == code && v == me.user_id then none else member c v w.rooms)
unfolding leave discard_room
leave_members env me code w c v =
    let w₁ = surrender_screen env me code w in
    let (camera_stopped, w₂) = stop_own_camera me code w₁ in
    let (remaining, w₃) = leave_room code me.user_id (discard_room me code w₂) in
    ap (member c v) (tell_remaining_rooms env me code camera_stopped remaining w₃)
    ∙ (leave_room_members code me.user_id (discard_room me code w₂) c v
        ∙ ap (λ o. if c == code && v == me.user_id then none else o)
            (stop_own_camera_members me code c v w₁ ∙ surrender_screen_members env me code c v w))
