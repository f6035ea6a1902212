-- ===== src/Handler/Share/Grants.antt =====
-- What the handlers of screen sharing do to the state of the room's share.
use mathlib.Core.Path.{subst}
use quickonnect.Prelude.{
  ℕ, true, false, Option, none, some, Text, nat_eq, text_eq, ◌==◌, ◌≡◌, refl, sym, ◌⊎◌, arith, inl,
  inr, Bool-cases, Option-cases, text_beq_iff,
}
use quickonnect.Prelude.Dict.{get}
use quickonnect.Json
use quickonnect.Json.{Json, Fields}
use quickonnect.Packet
use quickonnect.Screen
use quickonnect.Screen.{ScreenRelayState}
use quickonnect.Rooms.{get_room_clients, get_screen_state}
use quickonnect.Handler
use quickonnect.Handler.{field_or, send_error, set_screen}
use quickonnect.Handler.Share.{
  shares, is_sharer, handle_remote_grant, grant_on, grant_to, grant, revoke, only_sharer_grants,
  update_screen, told, text_or, find_target, as_key, target_gone, grant_payload, failed_to_grant,
  revoke_payload, failed_to_update,
}
use quickonnect.Handler.Share.Resolve.{
  resolve_screen_room-then, get_screen_state-set_screen, get_screen_state-broadcast,
  get_screen_state-deliver,
}
use quickonnect.World.Sends.{bind-some, bind-none}
use quickonnect.World.{World, Env, Session, Done}

-- Telling of the outcome leaves the other rooms' screens alone.
update_elsewhere :
    (env : Env) (me : Session) (code c : Text) (old screen : ScreenRelayState) (o : Screen.Outcome)
    (p : Json) (failure : Text) (w : World)
    → get_screen_state code w ≡ some old
    → (c == code) ≡ false
    → get_screen_state c (update_screen code (screen, o) (told env me code p failure) w).1
      ≡ get_screen_state c w
update_elsewhere env me code c old screen (true, e) p failure w there other = ground (
  arith,
  get_screen_state-broadcast env c code Packet.remote_grant p (set_screen code screen w),
  get_screen_state-set_screen c code screen old w there,
)
update_elsewhere env me code c old screen (false, e) p failure w there other = ground (
  arith,
  get_screen_state-deliver env c me.conn Packet.error
      (Handler.error_payload 500 (text_or e failure)) (set_screen code screen w),
  get_screen_state-set_screen c code screen old w there,
)

-- The three outcomes of looking up the target of a grant.
find_target-cases :
    (env : Env) (code : Text) (target : Json) (w : World)
    → (find_target env code target w ≡ (none, w))
      ⊎ (find_target env code target w ≡ (some none, w))
      ⊎ ((u : ℕ) × (s : Session) × (find_target env code target w ≡ (some (some (u, s)), w)))
unfolding find_target
find_target-cases env code target w = elim (Option-cases (as_key env target)) [
  | inl raised ↦ inl (rw (raised, find_target))
  | inr (key, e) ↦ elim (Option-cases key) [
    | inl strange ↦ inr (inl (rw (e, strange, find_target)))
    | inr (u, known) ↦ elim (Option-cases (get u (get_room_clients code w))) [
      | inl gone ↦ inr (inl (rw (e, known, gone, find_target)))
      | inr (s, there) ↦ inr (inr (u, s, rw (e, known, there, find_target)))
    ]
  ]
]

grant_elsewhere :
    (env : Env) (me : Session) (code c : Text) (screen : ScreenRelayState) (target : Json)
    (w : World)
    → get_screen_state code w ≡ some screen
    → (c == code) ≡ false
    → get_screen_state c (grant env me code screen target w).1 ≡ get_screen_state c w
unfolding grant
grant_elsewhere env me code c screen target w there other =
    let find = find_target env code target in
    let next = grant_to env me code screen target in
    let seen : Option Done × World → Type 0 = λ r. get_screen_state c r.1 ≡ get_screen_state c w in
    elim (find_target-cases env code target w) [
      | inl raised ↦ subst seen (sym (bind-none find next w w raised)) refl
      | inr (inl gone) ↦ subst seen (sym (bind-some find next w w none gone)) (
          get_screen_state-deliver env c me.conn Packet.error
            (Handler.error_payload 410 target_gone) w)
      | inr (inr (u, s, found)) ↦
          let (screen', outcome) =
            Screen.set_controller me.user_id (some u) (some s.username) screen in
          subst seen (sym (bind-some find next w w (some (u, s)) found)) (
            update_elsewhere env me code c screen screen' outcome
              (grant_payload code target s.username me.user_id) failed_to_grant w there other)
    ]

revoke_elsewhere :
    (env : Env) (me : Session) (code c : Text) (screen : ScreenRelayState) (w : World)
    → get_screen_state code w ≡ some screen
    → (c == code) ≡ false
    → get_screen_state c (revoke env me code screen w).1 ≡ get_screen_state c w
unfolding revoke
revoke_elsewhere env me code c screen w there other =
    update_elsewhere env me code c screen (Screen.set_controller me.user_id none none screen).0
      (Screen.set_controller me.user_id none none screen).1 (revoke_payload code me.user_id)
      failed_to_update w there other

grant_on_only_sharer :
    (env : Env) (me : Session) (payload : Fields) (w : World) (c code : Text)
    (screen : ScreenRelayState)
    → is_sharer me (get_screen_state c w) ≡ false
    → get_screen_state code w ≡ some screen
    → get_screen_state c (grant_on env me payload code screen w).1 ≡ get_screen_state c w
grant_on_only_sharer env me payload w c code screen other there =
    elim (Bool-cases (shares me screen)) [
      | inr refused ↦ rw refused (
          get_screen_state-deliver env c me.conn Packet.error
            (Handler.error_payload 403 only_sharer_grants) w)
      | inl sharer ↦
          let elsewhere : (c == code) ≡ false = ground (arith, text_beq_iff c code) in
          elim (Bool-cases (Json.truthy (field_or "granted" (Json.bool false) payload))) [
            | inl granted ↦
                rw (sharer, granted)
                  (grant_elsewhere env me code c screen
                    (field_or "target_user_id" Json.null payload) w there elsewhere)
            | inr revoked ↦
                rw (sharer, revoked) (revoke_elsewhere env me code c screen w there elsewhere)
          ]
    ]

-- A packet that grants or withdraws remote control, from a user who does not share the screen of a
-- room, leaves the state of that room's share as it was.
pub remote_grant_only_sharer :
    (env : Env) (me : Session) (payload : Fields) (w : World) (c : Text)
    → is_sharer me (get_screen_state c w) ≡ false
    → get_screen_state c (handle_remote_grant env me payload w).1 ≡ get_screen_state c w
unfolding handle_remote_grant
remote_grant_only_sharer env me payload w c other =
    resolve_screen_room-then (λ v. get_screen_state c v ≡ get_screen_state c w) env me payload
      (grant_on env me payload) w (λ p. get_screen_state-deliver env c me.conn Packet.error p w)
      refl
      (λ code screen inside there. grant_on_only_sharer env me payload w c code screen other there)
