-- ===== src/Handler/Share/Control.antt =====
-- Who may control another's screen, and whom the control's events reach.
use quickonnect.Prelude.{
  ℕ, true, Option, none, some, Text, nat_eq, text_eq, ◌≡◌, refl, arith, inl, inr, Bool-cases,
  Option-cases,
}
use quickonnect.Prelude.Dict.{get}
use quickonnect.Json
use quickonnect.Json.{Fields, str}
use quickonnect.Packet
use quickonnect.Screen
use quickonnect.Screen.{ScreenRelayState, ShareInfo}
use quickonnect.Rooms.{get_room_clients, get_screen_state}
use quickonnect.Handler.{in_room}
use quickonnect.Handler.Share.{
  absent, controlled, forward_event, event_payload, handle_remote_event,
}
use quickonnect.Handler.Payload.{stripped-step}
use quickonnect.World.{World, Env, Session, Call, sent}
use quickonnect.World.Sends.{Added, no_more, deliver-Added}

-- The call hands the controller's event to the sharer of that room.
abbrev pub IsControl : Session → Fields → World → Call → Type 0
IsControl me payload w c =
    (room_code : Text) × (screen : ScreenRelayState) × (sharer : ℕ) × (s : Session) × (in_room me
        room_code w
      ≡ true)
    × (get_screen_state room_code w ≡ some screen)
    × (Screen.controller_user_id screen ≡ some me.user_id)
    × (Screen.sharer_user_id screen ≡ some sharer)
    × (get sharer (get_room_clients room_code w) ≡ some s)
    × (c ≡ sent s.conn Packet.remote_event (event_payload me payload))

-- What `controlled` finds.
controlled_lem :
    (me : Session) (o : Option ScreenRelayState) (info : ShareInfo)
    → controlled me o ≡ some info
    → (screen : ScreenRelayState) × (o ≡ some screen)
      × (Screen.controller_user_id screen ≡ some me.user_id)
      × (Screen.sharer_user_id screen ≡ some info.sharer_user_id)
unfolding controlled Screen.controller_user_id Screen.sharer_user_id Screen.get_state
controlled_lem me none info h = absurd (ground arith)
controlled_lem me (some screen) info h = (screen, refl, ground arith, ground arith)

forward_event_private :
    (env : Env) (me : Session) (payload : Fields) (code : Text) (w : World)
    → Added (IsControl me payload w) w.log (forward_event env me payload code w).log
unfolding forward_event
forward_event_private env me payload code w = elim (Bool-cases (absent me code w)) [
  | inl out ↦ rw out no_more
  | inr here ↦ elim (Option-cases (controlled me (get_screen_state code w))) [
    | inl other ↦ rw (here, other) no_more
    | inr (info, controls) ↦
        elim (Option-cases (get info.sharer_user_id (get_room_clients code w))) [
          | inl gone ↦ rw (here, controls, gone) no_more
          | inr (s, there) ↦
              let (screen, is_screen, controller, sharer) =
                controlled_lem me (get_screen_state code w) info controls in
              rw (here, controls, there)
                (deliver-Added env s.conn Packet.remote_event (event_payload me payload) w
                  (
                    code,
                    screen,
                    info.sharer_user_id,
                    s,
                    ground arith,
                    is_screen,
                    controller,
                    sharer,
                    there,
                    refl,
                  )
                  no_more)
        ]
  ]
]

-- An event of remote control is handed on only if its sender is the controller of the share of a
-- room that the sender is in, and then to the sharer of that room alone.
pub remote_event_private :
    (env : Env) (me : Session) (payload : Fields) (w : World)
    → Added (IsControl me payload w) w.log (handle_remote_event env me payload w).1.log
unfolding handle_remote_event
remote_event_private env me payload w =
    stripped-step (λ v. Added (IsControl me payload w) w.log v.log) (Json.find "room_code" payload)
      (forward_event env me payload) w (λ code. forward_event_private env me payload code w) no_more
