-- ===== src/Handler/Lifecycle/Cleanup.antt =====
-- What is left of a user, once the connection has ended.
use quickonnect.Prelude.{
  ℕ, Bool, true, false, none, some, List, [], ◌∷◌, Text, nat_eq, text_eq, ◌==◌, codes,
  if◌then◌else◌, ◌≡◌, refl, sym, ap, ◌∙◌, inl, inr, Bool-cases, Option-cases, ==_refl, nat_beq_iff,
}
use quickonnect.Prelude.Dict.{get, erase, values, get-erase, get-put}
use quickonnect.Packet
use quickonnect.Screen
use quickonnect.Rooms.{get_screen_state, get_room_clients, remove_client_from_all_rooms}
use quickonnect.Rooms.Maps.{member}
use quickonnect.Rooms.Leaving.{remove_client_members}
use quickonnect.Server.{
  unregister_client, register_client, add_client, get_client, redis_step, announce, status_payload,
  end_old,
}
use quickonnect.Handler.{current_rooms, set_screen, broadcast}
use quickonnect.Handler.Share.{stop_payload}
use quickonnect.Handler.Membership.{update_payload, stop_own_camera, camera_stop_payload}
use quickonnect.Handler.Membership.Departure.{
  member-set_screen, member-broadcast_others, stop_own_camera_members,
}
use quickonnect.Handler.Lifecycle.{
  give_up_screen, give_up_camera, give_up, tell_left, vacate, cleanup, halt, lost_control_payload,
}
use quickonnect.World
use quickonnect.World.{World, Env, Session, call, closed, published, redis_offline, redis_online}
use quickonnect.World.Sends.{SameState, deliver_all-SameState, then-SameState}

give_up_screen_members :
    (env : Env) (me : Session) (code c : Text) (v : ℕ) (w : World)
    → member c v (give_up_screen env me code w).rooms ≡ member c v w.rooms
unfolding give_up_screen
give_up_screen_members env me code c v w = elim (Option-cases (get_screen_state code w)) [
  | inl gone ↦ rw (gone, give_up_screen) refl
  | inr (screen, there) ↦
      let share = Screen.stop_if_sharer me.user_id screen in
      let control = Screen.clear_controller_if me.user_id screen in
      elim (Bool-cases share.1) [
        | inl shared ↦
            rw (there, shared, give_up_screen)
              (member-broadcast_others env me code c v Packet.screen_stop
                  (stop_payload code me.user_id) (set_screen code share.0 w)
                ∙ member-set_screen code c share.0 v w)
        | inr other ↦ elim (Bool-cases control.1) [
          | inr free ↦ rw (there, other, free, give_up_screen) refl
          | inl controlled ↦
              rw (there, other, controlled, give_up_screen)
                (member-broadcast_others env me code c v Packet.remote_grant
                    (lost_control_payload code (Screen.sharer_user_id control.0))
                    (set_screen code control.0 w)
                  ∙ member-set_screen code c control.0 v w)
        ]
      ]
]

give_up_camera_members :
    (env : Env) (me : Session) (code c : Text) (v : ℕ) (w : World)
    → member c v (give_up_camera env me code w).rooms ≡ member c v w.rooms
unfolding give_up_camera
give_up_camera_members env me code c v w =
    let stopped = stop_own_camera me code w in
    elim (Bool-cases stopped.0) [
      | inl was_on ↦ rw was_on (
          member-broadcast_others env me code c v Packet.camera_stop (camera_stop_payload code me)
            stopped.1
          ∙ stop_own_camera_members me code c v w)
      | inr was_off ↦ rw was_off (stop_own_camera_members me code c v w)
    ]

give_up_members :
    (env : Env) (me : Session) (codes : List Text) (c : Text) (v : ℕ) (w : World)
    → member c v (give_up env me codes w).rooms ≡ member c v w.rooms
unfolding give_up
give_up_members env me [] c v w = refl
give_up_members env me (code ∷ codes) c v w =
    let w₁ = give_up_screen env me code w in
    give_up_members env me codes c v (give_up_camera env me code w₁)
    ∙ (give_up_camera_members env me code c v w₁ ∙ give_up_screen_members env me code c v w)

tell_left_rooms :
    (env : Env) (me : Session) (codes : List Text) (w : World)
    → (tell_left env me codes w).rooms ≡ w.rooms
unfolding tell_left broadcast
tell_left_rooms env me [] w = refl
tell_left_rooms env me (code ∷ codes) w =
    let payload = update_payload code "left" me in
    tell_left_rooms env me codes (broadcast env code Packet.room_update payload w)
    ∙ (deliver_all-SameState env (values (get_room_clients code w)) Packet.room_update payload
        w).rooms

vacate_members :
    (env : Env) (me : Session) (w : World) (c : Text) (v : ℕ)
    → member c v (vacate env me w).rooms ≡ (if v == me.user_id then none else member c v w.rooms)
unfolding vacate
vacate_members env me w c v =
    let w₁ = give_up env me (current_rooms me w) w in
    let (left_rooms, w₂) = remove_client_from_all_rooms me.user_id w₁ in
    ap (member c v) (tell_left_rooms env me left_rooms w₂)
    ∙ (remove_client_members me.user_id w₁ c v
        ∙ ap (λ o. if v == me.user_id then none else o)
            (give_up_members env me (current_rooms me w) c v w))

redis_step-SameState : (env : Env) (c : World.Call) (w : World) → SameState (redis_step env c w).1 w
redis_step-SameState env c w = elim (Bool-cases (env.redis_works w.log)) [
  | inl works ↦ rw works (record { rooms = refl; current_rooms = refl; clients = refl })
  | inr fails ↦ rw fails (record { rooms = refl; current_rooms = refl; clients = refl })
]

announce-SameState :
    (env : Env) (me : Session) (online : Bool) (c : World.Call) (w : World)
    → SameState (announce env me online c w).1 w
announce-SameState env me online c w =
    then-SameState (redis_step env c)
      (redis_step env (published (codes "user_status") (status_payload env me online))) w w
      (redis_step-SameState env c w)
      (redis_step-SameState env (published (codes "user_status") (status_payload env me online)))

-- The world once a client was taken off the server's clients.
abbrev unlisted : Session → World → World
unlisted me w = record w { clients = erase me.user_id w.clients }

unregister_client-SameState :
    (env : Env) (me : Session) (w : World)
    → SameState (unregister_client env me w).1 (unlisted me w)
unfolding unregister_client
unregister_client-SameState env me w =
    announce-SameState env me false (redis_offline me.user_id) (unlisted me w)

cleanup-SameState :
    (env : Env) (me : Session) (w : World)
    → SameState (cleanup env me w).1 (unlisted me (vacate env me (halt me w)))
unfolding cleanup
cleanup-SameState env me w =
    then-SameState (unregister_client env me) (call (closed me.conn))
      (unlisted me (vacate env me (halt me w))) (vacate env me (halt me w))
      (unregister_client-SameState env me (vacate env me (halt me w)))
      (λ u. record { rooms = refl; current_rooms = refl; clients = refl })

-- The end of a connection removes the user from every room and from the server's clients, and changes
-- no other membership, whether Redis raises or not.
pub cleanup_members :
    (env : Env) (me : Session) (w : World) (c : Text) (v : ℕ)
    → (member c v (cleanup env me w).1.rooms
        ≡ (if v == me.user_id then none else member c v w.rooms))
      × (get_client me.user_id (cleanup env me w).1 ≡ none)
unfolding get_client
cleanup_members env me w c v =
    let same = cleanup-SameState env me w in
    let w₁ = vacate env me (halt me w) in
    (
      ap (member c v) same.rooms ∙ vacate_members env me (halt me w) c v,
      ap (get me.user_id) same.clients
          ∙ (get-erase me.user_id me.user_id w₁.clients
              ∙ ap (λ b. if b then none else get me.user_id w₁.clients) (==_refl me.user_id)),
    )

register_client-SameState :
    (env : Env) (me : Session) (w : World)
    → SameState (register_client env me w).1 (add_client me w)
unfolding register_client
register_client-SameState env me w =
    announce-SameState env me true (redis_online me.user_id) (add_client me w)

registered_client :
    (env : Env) (new : Session) (w : World)
    → get_client new.user_id (register_client env new w).1 ≡ some new
unfolding get_client add_client
registered_client env new w =
    let w₁ = end_old new (get new.user_id w.clients) w in
    ap (get new.user_id) (register_client-SameState env new w).clients
    ∙ (get-put new.user_id new.user_id new w₁.clients
        ∙ ap (λ b. if b then some new else get new.user_id w₁.clients) (==_refl new.user_id))

-- A registration makes the connection the user's client, and where an earlier connection of the same user
-- ends after it, the user has no client and is in no room, although the new connection goes on.
pub cleanup-register_client :
    (env : Env) (old new : Session) (w : World) (c : Text)
    → old.user_id ≡ new.user_id
    → let w₁ = (register_client env new w).1 in
      (get_client new.user_id w₁ ≡ some new)
      × ((get_client new.user_id (cleanup env old w₁).1 ≡ none)
          × (member c new.user_id (cleanup env old w₁).1.rooms ≡ none))
cleanup-register_client env old new w c same =
    let w₁ = (register_client env new w).1 in
    let ended = cleanup_members env old w₁ c new.user_id in
    let own : (new.user_id == old.user_id) ≡ true =
      (nat_beq_iff new.user_id old.user_id).1 (sym same) in
    (
      registered_client env new w,
      (
        ap (λ u. get_client u (cleanup env old w₁).1) (sym same) ∙ ended.1,
        ended.0 ∙ ap (λ b. if b then none else member c new.user_id w₁.rooms) own,
      ),
    )
