-- ===== src/Handler/Membership/Redirect.antt =====
-- The way of a room's server from Redis into the redirect that the client reads.
use quickonnect.Prelude.{
  false, Option, none, some, ◌++◌, Text, text_eq, ◌≡◌, ◌≢◌, refl, ap, ◌∙◌, ◌∷◌,
}
use quickonnect.Rooms.{RoomState, is_dm_room, redirect_prefix, starts_with}
use quickonnect.Rooms.Joining.{join_room_redirect}
use quickonnect.Handler.Membership.{
  after_colon, join, welcome, redirect_payload, get_server_address, refuse_join, send_redirect,
}
use quickonnect.Packet
use quickonnect.World.{World, Env, Session, Done, raise, deliver, redis_get, redis_hget}

after_colon-redirect_prefix :
    (server : Text) → after_colon (redirect_prefix ++ server) ≡ some server
unfolding after_colon
after_colon-redirect_prefix server = refl

-- The error that `join_room` makes of a server's name is read back to that name.
refuse_join-redirect :
    (env : Env) (me : Session) (code server : Text) (w : World)
    → refuse_join env me code (redirect_prefix ++ server) w
      ≡ send_redirect env me code (some server) w
unfolding refuse_join starts_with after_colon
refuse_join-redirect env me code server w = refl

after_join : Env → Session → Text → (Option RoomState × Option Text) × World → Option Done × World
after_join env me code ((state, error), w) = elim error [
  | some message ↦ refuse_join env me code message w
  | none ↦ elim state [ none ↦ raise w | some s ↦ welcome env me code s w ]
]

-- A join of a room, not of a direct message, that Redis pins to another server is answered by exactly one packet, an error with
-- the address that Redis has of that server, and changes nothing else.
pub join_redirect :
    (env : Env) (me : Session) (code server : Text) (w : World)
    → is_dm_room code ≡ false
    → env.redis_get_answer w.log code ≡ some server
    → server ≢ env.server_id
    → join env me code w ≡ (
      some tt,
      deliver env me.conn Packet.error
          (redirect_payload code (env.server_address_answer (redis_get code ∷ w.log) server))
          (record w { log = redis_hget server ∷ redis_get code ∷ w.log }),
    )
unfolding join send_redirect get_server_address after_join
join_redirect env me code server w regular pinned other =
    ap (after_join env me code) (join_room_redirect env code server me w regular pinned other)
    ∙ refuse_join-redirect env me code server (record w { log = redis_get code ∷ w.log })
